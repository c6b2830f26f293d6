-- ===== src/Msix/Setup/Rollback.antt =====
-- The loops of setup and teardown: what they do to the table and to the handlers.
use emer_gen_z.Base.{
  ℕ, zero, suc, ◌+◌, ◌-◌, ◌≤◌, ◌<◌, ◌≡◌, refl, inl, inr, ◌==◌, true, false, some, List, [], ◌∷◌,
  arith, if◌then◌else◌, length, get_elem?, ℤ, is_neg, nonzero, Bool-cases, to_u16, to_u32,
}
use emer_gen_z.Fee.{MsixEntry, update}
use emer_gen_z.Msix.Setup.{
  PciCore, make_table, Assigned, assigned, failed, assign_vectors, request_irqs, free_irqs,
  put_vector,
}

-- how often a vector stands in the first entries of a table
pub occurrences : (v n : ℕ) → List MsixEntry → ℕ
occurrences v zero es = 0
occurrences v (suc n) [] = 0
occurrences v (suc n) (e ∷ es) = (if v == e.vector then 1 else 0) + occurrences v n es

-- Freeing the first `n` entries takes one handler off for each.
pub free_irqs-occurrences :
    (n : ℕ) (es : List MsixEntry) (f g : ℕ → ℕ)
    → n ≤ length es
    → ((v : ℕ) → f v ≡ g v + occurrences v n es)
    → (f' : ℕ → ℕ) × (free_irqs n es f ≡ some f') × ((v : ℕ) → f' v ≡ g v)
unfolding free_irqs occurrences
free_irqs-occurrences zero es f g h s = (f, refl, λ v. omega (arith, s v))
free_irqs-occurrences (suc n) [] f g h s = absurd (omega arith)
free_irqs-occurrences (suc n) (e ∷ es) f g h s =
    free_irqs-occurrences n es (update f e.vector (f e.vector - 1)) g (omega arith)
      (λ v. ground (arith, s v, s e.vector))

-- How the requests end: the first `count` entries have a handler more on their vectors, and these are
-- all the entries if no request failed.
pub record Requested (i : ℕ) (es : List MsixEntry) (f : ℕ → ℕ) (r : ℤ × ℕ × (ℕ → ℕ)) : Type 0 where
  pub count : ℕ
  pub last : r.1 ≡ i + count
  pub within : count ≤ length es
  pub complete : nonzero r.0 ≡ false → count ≡ length es
  pub added : (v : ℕ) → r.2 v ≡ f v + occurrences v count es

pub request_irqs-Requested :
    (k : PciCore) (i : ℕ) (es : List MsixEntry) (f : ℕ → ℕ)
    → Requested i es f (request_irqs k i es f)
unfolding request_irqs occurrences
request_irqs-Requested k i [] f = record {
  count = 0;
  last = omega arith;
  within = omega arith;
  complete = λ _. refl;
  added = λ v. omega arith;
}
request_irqs-Requested k i (e ∷ es) f = elim (Bool-cases (nonzero (k.request_irq i e.vector))) [
  | inl bad ↦ rw bad (record {
    count = 0;
    last = omega arith;
    within = omega arith;
    complete = λ h. cc;
    added = λ v. omega arith;
  })
  | inr good ↦
      let r = request_irqs-Requested k (i + 1) es (update f e.vector (f e.vector + 1)) in
      rw good (record {
        count = suc r.count;
        last = omega (arith, r.last);
        within = omega (arith, r.within);
        complete = λ h. omega (arith, r.complete h);
        added = λ v. ground (arith, r.added v);
      })
]

pub length-make_table : (n i : ℕ) → length (make_table n i) ≡ n
unfolding make_table
length-make_table zero i = refl
length-make_table (suc n) i = omega (arith, length-make_table n (i + 1))

-- How naming the vectors ends: with a negative answer, or with each entry as it was but for its vector.
abbrev pub Named : PciCore → ℕ → List MsixEntry → Assigned → Type 0
Named k i es (failed ret) = is_neg ret ≡ true
Named k i es (assigned es') =
    (length es' ≡ length es)
    × ((j : ℕ) (e : MsixEntry)
        → get_elem? es j ≡ some e
        → get_elem? es' j ≡ some (record e { vector = to_u32 (k.irq_vector (i + j)) }))

put_vector-Named :
    (k : PciCore) (i : ℕ) (e : MsixEntry) (es : List MsixEntry) (r : Assigned)
    → Named k (i + 1) es r
    → Named k i (e ∷ es) (put_vector e (k.irq_vector i) r)
put_vector-Named k i e es (failed ret) h = h
put_vector-Named k i e es (assigned es') h = (omega (arith, h.0), entries)
  where
    entries :
        (j : ℕ) (d : MsixEntry)
        → get_elem? (e ∷ es) j ≡ some d
        → get_elem? (record e { vector = to_u32 (k.irq_vector i) } ∷ es') j
          ≡ some (record d { vector = to_u32 (k.irq_vector (i + j)) })
    entries zero d at = let s : i + 0 ≡ i = omega arith in rw s (ground arith)
    entries (suc j) d at = let s : i + suc j ≡ i + 1 + j = omega arith in rw s (h.1 j d at)

pub assign_vectors-Named :
    (k : PciCore) (i : ℕ) (es : List MsixEntry) → Named k i es (assign_vectors k i es)
unfolding assign_vectors
assign_vectors-Named k i [] = (refl, λ j e h. cc)
assign_vectors-Named k i (e ∷ es) = elim (Bool-cases (is_neg (k.irq_vector i))) [
  | inl bad ↦ rw bad bad
  | inr good ↦ rw good (put_vector-Named k i e es _ (assign_vectors-Named k (i + 1) es))
]

pub get_elem?-make_table :
    (n i j : ℕ)
    → j < n
    → get_elem? (make_table n i) j ≡ some (record { vector = 0; entry = to_u16 (i + j) })
unfolding make_table
get_elem?-make_table zero i j h = absurd (omega arith)
get_elem?-make_table (suc n) i zero h = let s : i + 0 ≡ i = omega arith in rw s
get_elem?-make_table (suc n) i (suc j) h =
    let s : i + suc j ≡ i + 1 + j = omega arith in
    rw s (get_elem?-make_table n (i + 1) j (omega arith))

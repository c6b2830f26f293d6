-- ===== src/Msix/Setup/AllOrNothing.antt =====
-- Setup is all or nothing.
use emer_gen_z.Base.{
  ℕ, ◌+◌, ◌-◌, ◌<◌, ◌≡◌, refl, inl, inr, Bool, true, false, Option, none, some, List, arith, ltb,
  if◌then◌else◌, length, get_elem?, ℤ, pos, negsuc, nonzero, Bool-cases, ◌∙◌, ap, to_u16, to_u32,
  error, enospc, einval, enomem,
}
use emer_gen_z.Fee.{MsixEntry, Adapter}
use emer_gen_z.Msix.Setup.{
  PciCore, IrqState, make_table, Assigned, assigned, failed, assign_vectors, request_irqs,
  free_irqs, drop_handlers, drop_table, drop_vectors, attach_handlers, name_vectors, alloc_vectors,
  fee_isr_setup,
}
use emer_gen_z.Msix.Setup.Rollback.{
  occurrences, free_irqs-occurrences, Requested, request_irqs-Requested, length-make_table, Named,
  assign_vectors-Named, get_elem?-make_table,
}
use mathlib.Core.Bool.{false≢true}
use mathlib.Core.Path.{sym}

-- after a failure: no table, no vectors, and the handlers of before
pub record Undone (a : Adapter) (q : IrqState) (a' : Adapter) (q' : IrqState) : Type 0 where
  pub pointer : a' ≡ record a { irq_private = none }
  pub tables_back : q'.tables ≡ q.tables
  pub freed : q'.allocated ≡ false
  pub handlers_back : (v : ℕ) → q'.handlers v ≡ q.handlers v

-- after a success: one table, with each event's vector, and one handler more on each of these
pub record Installed (k : PciCore) (a : Adapter) (q : IrqState) (a' : Adapter) (q' : IrqState)
    : Type 0 where
  pub table : List MsixEntry
  pub pointer : a' ≡ record a { irq_private = some table }
  pub size : length table ≡ a.globals.n_events
  pub entries :
      (i : ℕ)
      → i < a.globals.n_events
      → get_elem? table i ≡ some (record { vector = to_u32 (k.irq_vector i); entry = to_u16 i })
  pub one_table : q'.tables ≡ q.tables + 1
  pub held : q'.allocated ≡ true
  pub handlers_added :
      (v : ℕ) → q'.handlers v ≡ q.handlers v + occurrences v a.globals.n_events table

abbrev pub AllOrNothing : PciCore → Adapter → IrqState → ℤ × Adapter × IrqState → Type 0
AllOrNothing k a q (ret, a', q') =
    (nonzero ret ≡ true → Undone a q a' q') × (nonzero ret ≡ false → Installed k a q a' q')

drop_handlers-freed :
    (ret : ℤ) (last : ℕ) (es : List MsixEntry) (a : Adapter) (q : IrqState) {f : ℕ → ℕ}
    → free_irqs last es q.handlers ≡ some f
    → drop_handlers ret last es a q ≡ drop_vectors ret a (record q { handlers = f })
drop_handlers-freed ret last es a q e = rw (e, drop_handlers)

module _ (k : PciCore) (a : Adapter) (q : IrqState) where
  fails :
      (ret : ℤ) (a' : Adapter) (q' : IrqState)
      → nonzero ret ≡ true
      → Undone a q a' q'
      → AllOrNothing k a q (ret, a', q')
  fails ret a' q' bad u = (λ _. u, λ good. absurd (false≢true (sym good ∙ bad)))

  succeeds :
      (ret : ℤ) (a' : Adapter) (q' : IrqState)
      → nonzero ret ≡ false
      → Installed k a q a' q'
      → AllOrNothing k a q (ret, a', q')
  succeeds ret a' q' good u = (λ bad. absurd (false≢true (sym good ∙ bad)), λ _. u)

  abbrev dropped : IrqState
  dropped = record q { tables = q.tables + 1 - 1; allocated = false }

  fails_dropped :
      (ret : ℤ)
      → nonzero ret ≡ true
      → (f : ℕ → ℕ) → ((v : ℕ) → f v ≡ q.handlers v)
      → AllOrNothing k a q (ret, record a { irq_private = none }, record dropped { handlers = f })
  fails_dropped ret bad f back =
      fails ret (record a { irq_private = none }) (record dropped { handlers = f }) bad
        (record { pointer = refl; tables_back = omega arith; freed = refl; handlers_back = back })

module _ (k : PciCore) (a : Adapter) (q : IrqState) (idle : q.allocated ≡ false) where
  abbrev n : ℕ
  n = a.globals.n_events

  -- the adapter and the device with a table, and with vectors
  abbrev tabled : List MsixEntry → Adapter
  tabled es = record a { irq_private = some es }

  abbrev held : IrqState
  held = record q { tables = q.tables + 1; allocated = true }

  attach_handlers-AllOrNothing :
      (es es0 : List MsixEntry)
      → length es ≡ n
      → ((i : ℕ)
          → i < n
          → get_elem? es i ≡ some (record { vector = to_u32 (k.irq_vector i); entry = to_u16 i }))
      → AllOrNothing k a q (attach_handlers k es (tabled es0) held)
  unfolding attach_handlers
  attach_handlers-AllOrNothing es es0 size entries =
      go (request_irqs k 0 es q.handlers) (request_irqs-Requested k 0 es q.handlers)
    where
      go :
          (r : ℤ × ℕ × (ℕ → ℕ))
          → Requested 0 es q.handlers r
          → AllOrNothing k a q (
              let (ret, last, f) = r in
              if nonzero ret
              then drop_handlers ret last es (tabled es) (record held { handlers = f })
              else (pos 0, tabled es, record held { handlers = f }))
      go (ret, last, f) r = elim (Bool-cases (nonzero ret)) [
        | inl bad ↦
            let at : last ≡ r.count = omega (arith, r.last) in
            let (f', freed, back) =
              free_irqs-occurrences last es f q.handlers (omega (arith, at, r.within))
                (rw at r.added) in
            rw
              (
                bad,
                drop_handlers-freed ret last es (tabled es) (record held { handlers = f }) freed,
              )
              (fails_dropped k a q ret bad f' back)
        | inr good ↦
            let all : r.count ≡ n = r.complete good ∙ size in
            rw good (
              succeeds k a q (pos 0) (tabled es) (record held { handlers = f }) refl
                (record {
                  table = es;
                  pointer = refl;
                  size = size;
                  entries = entries;
                  one_table = refl;
                  held = refl;
                  handlers_added = rw all at r.added;
                }))
      ]

  entry_of_assigned :
      (es : List MsixEntry)
      → Named k 0 (make_table n 0) (assigned es)
      → (i : ℕ) → i < n
      → get_elem? es i ≡ some (record { vector = to_u32 (k.irq_vector i); entry = to_u16 i })
  entry_of_assigned es h i lt =
      let z : 0 + i ≡ i = omega arith in
      rw z at
        (h.1 i (record { vector = 0; entry = to_u16 (0 + i) }) (get_elem?-make_table n 0 i lt))

  name_vectors-AllOrNothing :
      AllOrNothing k a q (name_vectors k (make_table n 0) (tabled (make_table n 0)) held)
  unfolding name_vectors
  name_vectors-AllOrNothing =
      go (assign_vectors k 0 (make_table n 0)) (assign_vectors-Named k 0 (make_table n 0))
    where
      go :
          (r : Assigned)
          → Named k 0 (make_table n 0) r
          → AllOrNothing k a q (elim r [
            | failed ret ↦ drop_vectors ret (tabled (make_table n 0)) held
            | assigned es' ↦ attach_handlers k es' (tabled (make_table n 0)) held
          ])
      go (failed ret) h = fails_dropped k a q ret (ground arith) q.handlers (λ v. refl)
      go (assigned es) h =
          attach_handlers-AllOrNothing es (make_table n 0) (h.0 ∙ length-make_table n 0)
            (entry_of_assigned es h)

  alloc_vectors-AllOrNothing : AllOrNothing k a q (
      alloc_vectors k
        (make_table n 0)
        (tabled (make_table n 0))
        (record q { tables = q.tables + 1 }))
  unfolding alloc_vectors
  alloc_vectors-AllOrNothing = go (k.alloc_irq_vectors n)
    where
      go :
          (z : ℤ)
          → AllOrNothing k a q (elim z [
            | negsuc m ↦
                drop_table (negsuc m) (tabled (make_table n 0)) (record q { tables = q.tables + 1 })
            | pos m ↦
                if ltb m n
                then drop_vectors (error enospc) (tabled (make_table n 0)) held
                else name_vectors k (make_table n 0) (tabled (make_table n 0)) held
          ])
      go (negsuc m) =
          fails k a q (negsuc m) (record a { irq_private = none })
            (record q { tables = q.tables + 1 - 1 }) refl
            (record {
              pointer = refl;
              tables_back = omega arith;
              freed = idle;
              handlers_back = λ v. refl;
            })
      go (pos m) = elim (Bool-cases (ltb m n)) [
        | inl few ↦ rw few (fails_dropped k a q (error enospc) refl q.handlers (λ v. refl))
        | inr enough ↦ rw enough name_vectors-AllOrNothing
      ]

  untouched :
      (ret : ℤ) (a' : Adapter)
      → nonzero ret ≡ true
      → a' ≡ record a { irq_private = none }
      → AllOrNothing k a q (ret, a', q)
  untouched ret a' bad same =
      fails k a q ret a' q bad
        (record { pointer = same; tables_back = refl; freed = idle; handlers_back = λ v. refl })

  -- Setup of an idle device without a table either fails and leaves no table, no vectors and the
  -- handlers of before, or succeeds with one table of all events, each with its vector, and one
  -- handler more on each vector.
  pub fee_isr_setup-AllOrNothing : a.irq_private ≡ none → AllOrNothing k a q (fee_isr_setup k a q)
  unfolding fee_isr_setup
  fee_isr_setup-AllOrNothing fresh = go k.msix_vec_count
    where
      same : a ≡ record a { irq_private = none }
      same = ap (λ (t : Option (List MsixEntry)). record a { irq_private = t }) fresh

      allocated_table :
          (b : Bool)
          → AllOrNothing k a q (
              if b
              then alloc_vectors k
                  (make_table n 0)
                  (tabled (make_table n 0))
                  (record q { tables = q.tables + 1 })
              else (error enomem, record a { irq_private = none }, q))
      allocated_table true = alloc_vectors-AllOrNothing
      allocated_table false = untouched (error enomem) (record a { irq_private = none }) refl refl

      go :
          (z : ℤ)
          → AllOrNothing k a q (elim z [
            | negsuc m ↦ (negsuc m, a, q)
            | pos m ↦
                if ltb m 16
                then (error einval, a, q)
                else if ltb m n
                then (error enospc, a, q)
                else if k.kzalloc_succeeds
                then alloc_vectors k
                    (make_table n 0)
                    (tabled (make_table n 0))
                    (record q { tables = q.tables + 1 })
                else (error enomem, record a { irq_private = none }, q)
          ])
      go (negsuc m) = untouched (negsuc m) a refl same
      go (pos m) = elim (Bool-cases (ltb m 16)) [
        | inl few ↦ rw few (untouched (error einval) a refl same)
        | inr many ↦ elim (Bool-cases (ltb m n)) [
          | inl few ↦ rw (many, few) (untouched (error enospc) a refl same)
          | inr enough ↦ rw (many, enough) (allocated_table k.kzalloc_succeeds)
        ]
      ]

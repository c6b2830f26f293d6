-- ===== src/Probe/History/Places.antt =====
-- The list of the places in `FEE_adapter_list`.
use emer_gen_z.Base.{
  ℕ, ◌≡◌, ◌≢◌, refl, Bool, true, false, ◌||◌, ◌==◌, inl, inr, Option, none, some, List, [], ◌∷◌,
  ◌++◌, arith, ==-refl, ◌∙◌, ap, sym, Bool-cases, Option-cases,
}
use mathlib.Core.Path.{subst}
use emer_gen_z.Probe.{is_listed, unlist}
use emer_gen_z.Probe.History.Adds.{Added}

-- an adapter at the place is in the list; the entry of a destroyed one is at no place
unfoldable pub lists : ℕ → List (Option ℕ) → Bool
lists place [] = false
lists place (none ∷ es) = lists place es
lists place (some p ∷ es) = (p == place) || lists place es

-- no place twice
unfoldable pub IsDistinct : List (Option ℕ) → Type 0
IsDistinct [] = Unit
IsDistinct (none ∷ es) = IsDistinct es
IsDistinct (some p ∷ es) = (lists p es ≡ false) × IsDistinct es

or-false : (a b : Bool) → (a || b) ≡ false → (a ≡ false) × (b ≡ false)
or-false true b h = absurd (ground arith)
or-false false b h = (refl, h)

-- The walk of the code that ends without an adapter at the place has met none.
pub lists-is_listed :
    (p : ℕ) (es : List (Option ℕ)) → is_listed p es ≡ some false → lists p es ≡ false
unfolding is_listed lists
lists-is_listed p [] walk = refl
lists-is_listed p (none ∷ es) walk = absurd (ground arith)
lists-is_listed p (some x ∷ es) walk = elim (Bool-cases (x == p)) [
  | inl here ↦ absurd (let e = rw here at walk in ground (arith, e))
  | inr other ↦ rw other (lists-is_listed p es (rw other at walk))
]

lists-append :
    (p q : ℕ) (es : List (Option ℕ)) → lists p (es ++ some q ∷ []) ≡ (lists p es || (q == p))
unfolding lists
lists-append p q [] = ground arith
lists-append p q (none ∷ es) = lists-append p q es
lists-append p q (some x ∷ es) = elim (Bool-cases (x == p)) [
  | inl here ↦ rw here refl
  | inr other ↦ rw other (lists-append p q es)
]

lists-append_null : (p : ℕ) (es : List (Option ℕ)) → lists p (es ++ none ∷ []) ≡ lists p es
unfolding lists
lists-append_null p [] = refl
lists-append_null p (none ∷ es) = lists-append_null p es
lists-append_null p (some x ∷ es) = ap (λ b. (x == p) || b) (lists-append_null p es)

append-IsDistinct :
    (q : ℕ) (es : List (Option ℕ))
    → IsDistinct es
    → lists q es ≡ false
    → IsDistinct (es ++ some q ∷ [])
unfolding lists IsDistinct
append-IsDistinct q [] d new = (refl, tt)
append-IsDistinct q (none ∷ es) d new = append-IsDistinct q es d new
append-IsDistinct q (some p ∷ es) d new =
    let (ne, new') = or-false (p == q) (lists q es) new in
    let ne' : (q == p) ≡ false = ground (arith, ne) in
    (lists-append p q es ∙ (rw (d.0) ne'), append-IsDistinct q es d.1 new')

append_null-IsDistinct : (es : List (Option ℕ)) → IsDistinct es → IsDistinct (es ++ none ∷ [])
unfolding lists IsDistinct
append_null-IsDistinct [] d = tt
append_null-IsDistinct (none ∷ es) d = append_null-IsDistinct es d
append_null-IsDistinct (some p ∷ es) d =
    (lists-append_null p es ∙ d.0, append_null-IsDistinct es d.1)

-- What is left of a list by `unlist`, where its walk ends.
pub data Unlists (q : ℕ) : (es es' : List (Option ℕ)) → Type 0 where
  empty : Unlists q [] []
  takes : {es es' : List (Option ℕ)} → Unlists q es es' → Unlists q (some q ∷ es) es'
  keeps :
      {es es' : List (Option ℕ)} (p : ℕ)
      → p ≢ q
      → Unlists q es es'
      → Unlists q (some p ∷ es) (some p ∷ es')

pub unlist-Unlists : (q : ℕ) (es es' : List (Option ℕ)) → unlist q es ≡ some es' → Unlists q es es'
unfolding unlist
unlist-Unlists q [] es' walk = subst (Unlists q []) (ground (arith, walk)) empty
unlist-Unlists q (none ∷ es) es' walk = absurd (ground arith)
unlist-Unlists q (some p ∷ es) es' walk = elim (Option-cases (unlist q es)) [
  | inl bad ↦ absurd (let e = rw (bad, unlist) at walk in ground (arith, e))
  | inr (rest, ends) ↦
      let e = rw (ends, unlist) at walk in
      elim (Bool-cases (p == q)) [
        | inl here ↦
            let same : rest ≡ es' = (let e2 = rw here at e in ground (arith, e2)) in
            let at : q ≡ p = ground (arith, here) in
            subst (Unlists q (some p ∷ es)) same
              (subst (λ x. Unlists q (some x ∷ es) rest) at (takes (unlist-Unlists q es rest ends)))
        | inr other ↦
            let same : (some p ∷ rest) ≡ es' = (let e2 = rw other at e in ground (arith, e2)) in
            subst (Unlists q (some p ∷ es)) same
              (keeps p (λ at. ground (arith, at, other)) (unlist-Unlists q es rest ends))
      ]
]

pub lists-Unlists :
    (p q : ℕ) {es es' : List (Option ℕ)} → p ≢ q → Unlists q es es' → lists p es' ≡ lists p es
unfolding lists
lists-Unlists p q ne empty = refl
lists-Unlists p q ne (takes u) =
    let other : (q == p) ≡ false = ground (arith, ne) in rw other (lists-Unlists p q ne u)
lists-Unlists p q ne (keeps x away u) = ap (λ b. (x == p) || b) (lists-Unlists p q ne u)

pub Unlists-IsDistinct :
    (q : ℕ) {es es' : List (Option ℕ)} → Unlists q es es' → IsDistinct es → IsDistinct es'
unfolding IsDistinct
Unlists-IsDistinct q empty d = d
Unlists-IsDistinct q (takes u) d = Unlists-IsDistinct q u d.1
Unlists-IsDistinct q (keeps x away u) d =
    (lists-Unlists x q away u ∙ d.0, Unlists-IsDistinct q u d.1)

pub lists-Added : (p place : ℕ) (l l' : List (Option ℕ)) → Added place l l' → lists p l' ≡ lists p l
lists-Added p place l l' (inl same) = ap (lists p) same
lists-Added p place l l' (inr (new, added)) = ap (lists p) added ∙ lists-append_null p l

pub lists-append_other :
    (p place : ℕ) (l : List (Option ℕ)) → lists p l ≡ true → lists p (l ++ some place ∷ []) ≡ true
lists-append_other p place l h = lists-append p place l ∙ (rw h refl)

pub lists-added : (place : ℕ) (l : List (Option ℕ)) → lists place (l ++ some place ∷ []) ≡ true
lists-added place l =
    lists-append place place l
    ∙ elim (Bool-cases (lists place l)) [ inl old ↦ rw old refl | inr new ↦ rw new (==-refl place) ]

pub added-IsDistinct :
    (place : ℕ) (l : List (Option ℕ))
    → is_listed place l ≡ some false
    → IsDistinct l
    → IsDistinct (l ++ some place ∷ [])
added-IsDistinct place l new d = append-IsDistinct place l d (lists-is_listed place l new)

pub Added-IsDistinct :
    (place : ℕ) (l l' : List (Option ℕ)) → Added place l l' → IsDistinct l → IsDistinct l'
Added-IsDistinct place l l' (inl same) d = subst IsDistinct (sym same) d
Added-IsDistinct place l l' (inr (new, added)) d =
    subst IsDistinct (sym added) (append_null-IsDistinct l d)

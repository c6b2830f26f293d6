-- ===== src/Probe/Walk.antt =====
-- The walks over `FEE_adapter_list`.
use emer_gen_z.Base.{
  ℕ, ◌≡◌, ◌≢◌, refl, ◌==◌, Bool, true, false, Option, none, some, List, [], ◌∷◌, ◌++◌, All, arith,
  Bool-cases, inl, inr, ap, ==-refl,
}
use emer_gen_z.Probe.{is_listed, forget, unlist}

-- no entry of an adapter that was destroyed
abbrev pub IsWhole : List (Option ℕ) → Type 0
IsWhole es = All (λ (e : Option ℕ). e ≢ none) es

pub is_listed-ends :
    (place : ℕ) (es : List (Option ℕ))
    → IsWhole es
    → (there : Bool) × (is_listed place es ≡ some there)
unfolding is_listed
is_listed-ends place [] whole = (false, refl)
is_listed-ends place (none ∷ es) whole = absurd (whole.0 refl)
is_listed-ends place (some p ∷ es) whole =
    let (there, walk) = is_listed-ends place es whole.1 in
    elim (Bool-cases (p == place)) [
      | inl here ↦ (true, rw here refl)
      | inr other ↦ (there, rw other walk)
    ]

-- The entry of an adapter that was listed last loses its device.
pub forget-added :
    (place : ℕ) (es : List (Option ℕ))
    → is_listed place es ≡ some false
    → forget place (es ++ some place ∷ []) ≡ es ++ none ∷ []
unfolding is_listed forget
forget-added place [] new = rw (==-refl place) refl
forget-added place (none ∷ es) new = absurd (ground arith)
forget-added place (some p ∷ es) new = elim (Bool-cases (p == place)) [
  | inl here ↦ absurd (let e = rw here at new in ground (arith, e))
  | inr other ↦
      rw other (ap (λ (s : List (Option ℕ)). some p ∷ s) (forget-added place es (rw other at new)))
]

pub unlist-ends :
    (place : ℕ) (es : List (Option ℕ))
    → IsWhole es
    → (es' : List (Option ℕ)) × (unlist place es ≡ some es')
      × All (λ (e : Option ℕ). e ≢ some place) es'
unfolding unlist
unlist-ends place [] whole = ([], refl, tt)
unlist-ends place (none ∷ es) whole = absurd (whole.0 refl)
unlist-ends place (some p ∷ es) whole =
    let (es', walk, gone) = unlist-ends place es whole.1 in
    elim (Bool-cases (p == place)) [
      | inl here ↦ (es', rw walk (rw here refl), gone)
      | inr other ↦ (some p ∷ es', rw walk (rw other refl), ((λ e. ground (arith, e, other)), gone))
    ]

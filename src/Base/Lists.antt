-- ===== src/Base/Lists.antt =====
-- Byte arrays and tables: lists measured and indexed by native numbers.
use Prim.Native.Nat.{ℕ, zero, suc, ◌+◌, ◌≤◌, ◌<◌}
use mathlib.Core.Path.{◌≡◌, refl, ap}
use mathlib.Core.List.{List, [], ◌∷◌, ◌++◌}
use mathlib.Core.Option.{Option, none, some}
use native.Mathlib.Omega.{arith}

module _ {ℓ} {A : Type ℓ} where
  abbrev pub length : List A → ℕ
  length [] = 0
  length (x ∷ xs) = suc (length xs)

  abbrev pub get_elem? : List A → ℕ → Option A
  get_elem? [] i = none
  get_elem? (x ∷ xs) zero = some x
  get_elem? (x ∷ xs) (suc i) = get_elem? xs i

  abbrev pub set : List A → ℕ → A → List A
  set [] i v = []
  set (x ∷ xs) zero v = v ∷ xs
  set (x ∷ xs) (suc i) v = x ∷ set xs i v

  abbrev pub take : ℕ → List A → List A
  take zero xs = []
  take (suc n) [] = []
  take (suc n) (x ∷ xs) = x ∷ take n xs

  abbrev pub drop : ℕ → List A → List A
  drop zero xs = xs
  drop (suc n) [] = []
  drop (suc n) (x ∷ xs) = drop n xs

  abbrev pub replicate : ℕ → A → List A
  replicate zero a = []
  replicate (suc n) a = a ∷ replicate n a

  -- `memcpy` of a whole list onto the front of an array.
  abbrev pub overwrite : List A → List A → List A
  overwrite [] ds = ds
  overwrite (x ∷ xs) [] = []
  overwrite (x ∷ xs) (d ∷ ds) = x ∷ overwrite xs ds

  abbrev pub All {κ} : (A → Type κ) → List A → Type κ
  All P [] = Unit
  All P (x ∷ xs) = P x × All P xs

module _ {ℓ} {A : Type ℓ} where
  pub length-append : (xs ys : List A) → length (xs ++ ys) ≡ length xs + length ys
  length-append [] ys = omega arith
  length-append (x ∷ xs) ys = omega (arith, length-append xs ys)

  pub length-set : (xs : List A) (i : ℕ) (v : A) → length (set xs i v) ≡ length xs
  length-set [] i v = refl
  length-set (x ∷ xs) zero v = refl
  length-set (x ∷ xs) (suc i) v = ap suc (length-set xs i v)

  pub get_elem?-set_self :
      (xs : List A) (i : ℕ) (v : A) → i < length xs → get_elem? (set xs i v) i ≡ some v
  get_elem?-set_self [] i v h = elim h [ ]
  get_elem?-set_self (x ∷ xs) zero v h = refl
  get_elem?-set_self (x ∷ xs) (suc i) v h = get_elem?-set_self xs i v (omega arith)

  pub length-overwrite : (xs ds : List A) → length (overwrite xs ds) ≡ length ds
  length-overwrite [] ds = refl
  length-overwrite (x ∷ xs) [] = refl
  length-overwrite (x ∷ xs) (d ∷ ds) = ap suc (length-overwrite xs ds)

  pub take-overwrite :
      (xs ds : List A) → length xs ≤ length ds → take (length xs) (overwrite xs ds) ≡ xs
  take-overwrite [] ds h = refl
  take-overwrite (x ∷ xs) [] h = absurd (omega arith)
  take-overwrite (x ∷ xs) (d ∷ ds) h = ap (λ r. x ∷ r) (take-overwrite xs ds (omega arith))

  pub get_elem?-overwrite_after :
      (xs ds : List A) (i : ℕ) → length xs ≤ i → get_elem? (overwrite xs ds) i ≡ get_elem? ds i
  get_elem?-overwrite_after [] ds i h = refl
  get_elem?-overwrite_after (x ∷ xs) [] i h = refl
  get_elem?-overwrite_after (x ∷ xs) (d ∷ ds) zero h = absurd (omega arith)
  get_elem?-overwrite_after (x ∷ xs) (d ∷ ds) (suc i) h =
      get_elem?-overwrite_after xs ds i (omega arith)

  pub length-replicate : (n : ℕ) (a : A) → length (replicate n a) ≡ n
  length-replicate zero a = refl
  length-replicate (suc n) a = ap suc (length-replicate n a)

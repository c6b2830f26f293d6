-- ===== src/Text/Format/RoundTrip.antt =====
-- `sscanf` reads back what `sprintf` printed with the same format.
use emer_gen_z.Base.{
  ℕ, suc, ◌<◌, ◌^◌, ◌≡◌, refl, true, false, List, [], ◌∷◌, ◌++◌, map, arith, length, ℤ, pos, negsuc,
  All, ap, ==-refl,
}
use mathlib.Core.List.{append_assoc}
use emer_gen_z.Text.Decimal.{
  decimal, decimal_int, decimal_digit, starts_with_digit, is_digit, magnitude, scan_int-decimal_int,
}
use emer_gen_z.Text.Format.{
  Directive, lit, blank, dec, str, Arg, int, sprintf, sscanf, is_space, skip_spaces,
}

-- how many numbers a format reads
abbrev pub decs : List Directive → ℕ
decs [] = 0
decs (lit c ∷ f) = decs f
decs (blank ∷ f) = decs f
decs (dec ∷ f) = suc (decs f)
decs (str ∷ f) = decs f

-- The text of the format cannot begin with a digit, or with white space.
abbrev pub NoDigitFirst : List Directive → Type 0
NoDigitFirst [] = Unit
NoDigitFirst (lit c ∷ f) = is_digit c ≡ false
NoDigitFirst (blank ∷ f) = Unit
NoDigitFirst (dec ∷ f) = ⊥
NoDigitFirst (str ∷ f) = ⊥

abbrev pub NoSpaceFirst : List Directive → Type 0
NoSpaceFirst [] = Unit
NoSpaceFirst (lit c ∷ f) = is_space c ≡ false
NoSpaceFirst (blank ∷ f) = ⊥
NoSpaceFirst (dec ∷ f) = Unit
NoSpaceFirst (str ∷ f) = ⊥

-- No number runs into another, and no white space into more white space.
abbrev pub Separated : List Directive → Type 0
Separated [] = Unit
Separated (lit c ∷ f) = Separated f
Separated (blank ∷ f) = NoSpaceFirst f × Separated f
Separated (dec ∷ f) = NoDigitFirst f × Separated f
Separated (str ∷ f) = ⊥

-- what may follow the printed text: the end, or a byte that is neither a digit nor white space
abbrev pub Ends : List ℕ → Type 0
Ends [] = Unit
Ends (c ∷ s) = (is_digit c ≡ false) × (is_space c ≡ false)

skip_spaces-digit : (s : List ℕ) → starts_with_digit s ≡ true → skip_spaces s ≡ s
unfolding skip_spaces
skip_spaces-digit [] h = refl
skip_spaces-digit (c ∷ s) h = let e : is_space c ≡ false = ground arith in rw e

skip_spaces-decimal_int :
    (z : ℤ) (s : List ℕ) → skip_spaces (decimal_int z ++ s) ≡ decimal_int z ++ s
skip_spaces-decimal_int (pos n) s =
    unfold decimal_int in skip_spaces-digit (decimal n ++ s) (decimal_digit n s)
skip_spaces-decimal_int (negsuc n) s = unfold decimal_int skip_spaces in refl

skip_one : (s : List ℕ) → skip_spaces (b' ' ∷ s) ≡ skip_spaces s
unfolding skip_spaces
skip_one s = refl

module _ (r : List ℕ) (ends : Ends r) where
  no_digit_end : starts_with_digit r ≡ false
  no_digit_end = go r ends
    where
      go : (r : List ℕ) → Ends r → starts_with_digit r ≡ false
      go [] e = refl
      go (c ∷ s) e = e.0

  no_space_end : skip_spaces r ≡ r
  no_space_end = go r ends
    where
      go : (r : List ℕ) → Ends r → skip_spaces r ≡ r
      go [] e = unfold skip_spaces in refl
      go (c ∷ s) e = unfold skip_spaces in rw e.1

  no_digit :
      (f : List Directive) (args : List Arg)
      → NoDigitFirst f
      → starts_with_digit (sprintf f args ++ r) ≡ false
  unfolding sprintf
  no_digit [] args h = no_digit_end
  no_digit (lit c ∷ f) args h = h
  no_digit (blank ∷ f) args h = refl
  no_digit (dec ∷ f) args h = elim h [ ]
  no_digit (str ∷ f) args h = elim h [ ]

  no_space :
      (f : List Directive) (zs : List ℤ)
      → NoSpaceFirst f
      → length zs ≡ decs f
      → skip_spaces (sprintf f (map int zs) ++ r) ≡ sprintf f (map int zs) ++ r
  unfolding sprintf
  no_space [] zs h e = no_space_end
  no_space (lit c ∷ f) zs h e = unfold skip_spaces in rw h
  no_space (blank ∷ f) zs h e = elim h [ ]
  no_space (dec ∷ f) [] h e = absurd (omega arith)
  no_space (dec ∷ f) (z ∷ zs) h e =
      rw (append_assoc (decimal_int z) (sprintf f (map int zs)) r)
        (skip_spaces-decimal_int z (sprintf f (map int zs) ++ r))
  no_space (str ∷ f) zs h e = elim h [ ]

  -- Behind a text that cannot belong to it, what was printed with a format that keeps its numbers and
  -- blanks apart is scanned to the numbers that were printed, each of at most 20 digits.
  pub sscanf-sprintf :
      (f : List Directive) (zs : List ℤ)
      → Separated f
      → length zs ≡ decs f
      → All (λ z. magnitude z < 10 ^ 20) zs
      → sscanf (sprintf f (map int zs) ++ r) f ≡ zs
  unfolding sscanf sprintf
  sscanf-sprintf [] [] sep e small = refl
  sscanf-sprintf [] (z ∷ zs) sep e small = absurd (omega arith)
  sscanf-sprintf (lit c ∷ f) zs sep e small =
      rw (==-refl c, sscanf) (sscanf-sprintf f zs sep e small)
  sscanf-sprintf (blank ∷ f) zs sep e small =
      rw (skip_one (sprintf f (map int zs) ++ r), no_space f zs sep.0 e)
        (sscanf-sprintf f zs sep.1 e small)
  sscanf-sprintf (dec ∷ f) [] sep e small = absurd (omega arith)
  sscanf-sprintf (dec ∷ f) (z ∷ zs) sep e small =
      rw
        (
          append_assoc (decimal_int z) (sprintf f (map int zs)) r,
          skip_spaces-decimal_int z (sprintf f (map int zs) ++ r),
          scan_int-decimal_int z (sprintf f (map int zs) ++ r) small.0
              (no_digit f (map int zs) sep.0),
          sscanf,
        )
        (ap (λ w. z ∷ w) (sscanf-sprintf f zs sep.1 (omega arith) small.1))
  sscanf-sprintf (str ∷ f) zs sep e small = elim sep [ ]

-- ===== src/Text/Decimal.antt =====
-- Decimal numbers as `%d` and `%llu` print and read them.
use native.Mathlib.Nat.{pow-suc}
use emer_gen_z.Base.{
  ℕ, zero, suc, ◌+◌, ◌-◌, ◌*◌, ◌/◌, ◌%◌, ◌^◌, ◌≤◌, ◌<◌, ◌≡◌, refl, ◌∙◌, Bool, true, false, ◌&&◌,
  Option, none, some, List, [], ◌∷◌, ◌++◌, arith, ltb, leb, ◌==◌, if◌then◌else◌, length, ℤ, pos,
  negsuc, Bool-cases, inl, inr, ap, ltb→lt,
}

-- The digits of `n`, the last one first put in front of `acc`. `fuel` bounds their number.
unfoldable pub digits : (fuel n : ℕ) → List ℕ → List ℕ
digits zero n acc = acc
digits (suc fuel) n acc =
    let rest = digits fuel (n / 10) ((n % 10 + b'0') ∷ acc) in
    if ltb n 10 then (n + b'0') ∷ acc else rest

-- `%llu`: 20 digits hold every 64-bit number
unfoldable pub decimal : ℕ → List ℕ
unfolding digits
decimal n = digits 20 n []

-- `%d`
unfoldable pub decimal_int : ℤ → List ℕ
decimal_int (pos n) = decimal n
decimal_int (negsuc n) = b'-' ∷ decimal (suc n)

abbrev pub is_digit : ℕ → Bool
is_digit c = leb b'0' c && leb c b'9'

-- the digits at the front of a string, read behind those that gave `acc`
unfoldable pub scan_nat : ℕ → List ℕ → ℕ × List ℕ
scan_nat acc [] = (acc, [])
scan_nat acc (c ∷ s) =
    let rest = scan_nat (acc * 10 + (c - b'0')) s in if is_digit c then rest else (acc, c ∷ s)

-- `%d` wants a digit, or a minus sign with a digit behind it
abbrev pub starts_with_digit : List ℕ → Bool
starts_with_digit [] = false
starts_with_digit (c ∷ s) = is_digit c

abbrev negate : ℕ → ℤ
negate zero = pos 0
negate (suc n) = negsuc n

abbrev pub magnitude : ℤ → ℕ
magnitude (pos n) = n
magnitude (negsuc n) = suc n

unfoldable pub scan_unsigned : List ℕ → Option (ℕ × List ℕ)
unfolding scan_nat
scan_unsigned s = if starts_with_digit s then some (scan_nat 0 s) else none

unfoldable pub scan_int : List ℕ → Option (ℤ × List ℕ)
scan_int [] = none
scan_int (c ∷ s) = elim (c == b'-') [
  | true ↦ elim (scan_unsigned s) [ none ↦ none | some (n, r) ↦ some (negate n, r) ]
  | false ↦ elim (scan_unsigned (c ∷ s)) [ none ↦ none | some (n, r) ↦ some (pos n, r) ]
]

is_digit-add : (d : ℕ) → d < 10 → is_digit (d + b'0') ≡ true
is_digit-add d h = ground arith

div-ten-lt : (k n : ℕ) → n < 10 ^ suc k → n / 10 < 10 ^ k
div-ten-lt k n h = let h' : n < 10 ^ k * 10 = rw (pow-suc 10 k) at h in omega arith

scan_nat-digit :
    (v d : ℕ) (s : List ℕ) → d < 10 → scan_nat v ((d + b'0') ∷ s) ≡ scan_nat (v * 10 + d) s
unfolding scan_nat
scan_nat-digit v d s h =
    let e : v * 10 + (d + b'0' - b'0') ≡ v * 10 + d = omega arith in rw (is_digit-add d h, e)

-- Reading what was printed goes on behind it with the number read.
scan_nat-digits :
    (fuel n : ℕ) (acc s : List ℕ)
    → n < 10 ^ fuel
    → scan_nat 0 (digits fuel n acc ++ s) ≡ scan_nat n (acc ++ s)
unfolding digits
scan_nat-digits zero n acc s h = let e : n ≡ 0 = omega arith in rw e
scan_nat-digits (suc fuel) n acc s h = elim (Bool-cases (ltb n 10)) [
  | inl small ↦
      rw small (
        scan_nat-digit 0 n (acc ++ s) (ground arith)
        ∙ ap (λ v. scan_nat v (acc ++ s)) (omega arith))
  | inr large ↦ rw large (
      scan_nat-digits fuel (n / 10) ((n % 10 + b'0') ∷ acc) s (div-ten-lt fuel n h)
      ∙ scan_nat-digit (n / 10) (n % 10) (acc ++ s) (omega arith)
      ∙ ap (λ v. scan_nat v (acc ++ s)) (omega arith))
]

-- A number below `10 ^ k` prints in `k` digits, or in one.
length-digits :
    (k fuel n : ℕ) (acc : List ℕ) → n < 10 ^ suc k → length (digits fuel n acc) ≤ suc k + length acc
unfolding digits
length-digits k zero n acc h = omega arith
length-digits zero (suc fuel) n acc h = ground arith
length-digits (suc k) (suc fuel) n acc h =
    ground (arith, length-digits k fuel (n / 10) ((n % 10 + b'0') ∷ acc) (div-ten-lt (suc k) n h))

-- `digits` puts a digit in front.
digits-acc_digit :
    (fuel n d : ℕ) (acc s : List ℕ)
    → d < 10
    → starts_with_digit (digits fuel n ((d + b'0') ∷ acc) ++ s) ≡ true
unfolding digits
digits-acc_digit zero n d acc s h = is_digit-add d h
digits-acc_digit (suc fuel) n d acc s h = elim (Bool-cases (ltb n 10)) [
  | inl small ↦ rw small (is_digit-add n (ltb→lt n 10 small))
  | inr large ↦
      rw large (digits-acc_digit fuel (n / 10) (n % 10) ((d + b'0') ∷ acc) s (omega arith))
]

pub decimal_digit : (n : ℕ) (s : List ℕ) → starts_with_digit (decimal n ++ s) ≡ true
unfolding decimal
decimal_digit n s = elim (Bool-cases (ltb n 10)) [
  | inl small ↦ rw small (is_digit-add n (ltb→lt n 10 small))
  | inr large ↦ rw large (digits-acc_digit 19 (n / 10) (n % 10) [] s (omega arith))
]

scan_nat-stop : (n : ℕ) (s : List ℕ) → starts_with_digit s ≡ false → scan_nat n s ≡ (n, s)
unfolding scan_nat
scan_nat-stop n [] h = refl
scan_nat-stop n (c ∷ s) h = rw h

scan_unsigned-decimal :
    (n : ℕ) (s : List ℕ)
    → n < 10 ^ 20
    → starts_with_digit s ≡ false
    → scan_unsigned (decimal n ++ s) ≡ some (n, s)
unfolding scan_unsigned
scan_unsigned-decimal n s small stop =
    rw (decimal_digit n s) (ap some (scan_nat-decimal ∙ scan_nat-stop n s stop))
  where
    scan_nat-decimal : scan_nat 0 (decimal n ++ s) ≡ scan_nat n s
    scan_nat-decimal = unfold decimal in scan_nat-digits 20 n [] s small

scan_int-digit :
    (t : List ℕ)
    → starts_with_digit t ≡ true
    → scan_int t ≡ elim (scan_unsigned t) [ none ↦ none | some (n, r) ↦ some (pos n, r) ]
unfolding scan_int
scan_int-digit [] h = cc
scan_int-digit (c ∷ t) h = let e : (c == b'-') ≡ false = ground arith in rw (e, scan_int)

scan_int-minus :
    (t : List ℕ)
    → scan_int (b'-' ∷ t)
      ≡ elim (scan_unsigned t) [ none ↦ none | some (n, r) ↦ some (negate n, r) ]
unfolding scan_int
scan_int-minus t = refl

-- `%d` reads back what `%d` printed, in front of anything but a digit.
pub scan_int-decimal_int :
    (z : ℤ) (s : List ℕ)
    → magnitude z < 10 ^ 20
    → starts_with_digit s ≡ false
    → scan_int (decimal_int z ++ s) ≡ some (z, s)
scan_int-decimal_int (pos n) s small stop =
    unfold decimal_int in
    rw (scan_int-digit (decimal n ++ s) (decimal_digit n s), scan_unsigned-decimal n s small stop)
scan_int-decimal_int (negsuc n) s small stop =
    unfold decimal_int in
    rw (scan_int-minus (decimal (suc n) ++ s), scan_unsigned-decimal (suc n) s small stop)

pub length-decimal_int : (z : ℤ) → magnitude z < 10 ^ 10 → length (decimal_int z) ≤ 11
unfolding decimal_int decimal
length-decimal_int (pos n) h = omega (arith, length-digits 9 20 n [] h)
length-decimal_int (negsuc n) h = omega (arith, length-digits 9 20 (suc n) [] h)

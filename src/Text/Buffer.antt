-- ===== src/Text/Buffer.antt =====
-- Writing into a fixed array: `memset` with zeroes, and `snprintf` of a text.
use emer_gen_z.Base.{
  ◌%◌, ◌^◌, Option, none, leb, set, ℕ, zero, suc, ◌+◌, ◌-◌, ◌≤◌, ◌<◌, ◌≡◌, refl, some, List, [],
  ◌∷◌, ◌++◌, arith, length, take, drop, replicate, overwrite, get_elem?, length-append,
  length-overwrite, length-replicate, get_elem?-overwrite_after, ◌==◌, if◌then◌else◌, ◌∙◌,
  Bool-cases, inl, inr,
}

abbrev pub clear : (size : ℕ) → List ℕ → List ℕ
clear size buf = overwrite (replicate size 0) buf

-- At most `n` bytes are stored, the last of them a NUL; nothing where `n` is 0.
unfoldable pub snprintf : (n : ℕ) → (text buf : List ℕ) → List ℕ
snprintf n text buf = if n == 0 then buf else overwrite (take (n - 1) text ++ 0 ∷ []) buf

-- `buf[size - 1] = '\0'; return size;`: `none` where that byte lies outside of the buffer.
unfoldable pub end_text : (buf : List ℕ) → (size : ℕ) → Option (ℕ × List ℕ)
end_text buf size =
    let last = (size + 2 ^ 64 - 1) % 2 ^ 64 in
    if leb (length buf) last then none else some (size, set buf last 0)

pub drop-overwrite : (n : ℕ) (xs ds : List ℕ) → length xs ≤ n → drop n (overwrite xs ds) ≡ drop n ds
drop-overwrite n [] ds h = refl
drop-overwrite zero (x ∷ xs) ds h = absurd (omega arith)
drop-overwrite (suc n) (x ∷ xs) [] h = refl
drop-overwrite (suc n) (x ∷ xs) (d ∷ ds) h = drop-overwrite n xs ds (omega arith)

pub length-take_le : (n : ℕ) (xs : List ℕ) → length (take n xs) ≤ n
length-take_le zero xs = omega arith
length-take_le (suc n) [] = omega arith
length-take_le (suc n) (x ∷ xs) = omega (arith, length-take_le n xs)

pub clear_zero :
    (size i : ℕ) (buf : List ℕ) → i < size → i < length buf → get_elem? (clear size buf) i ≡ some 0
clear_zero zero i buf h k = absurd (omega arith)
clear_zero (suc size) i [] h k = absurd (omega arith)
clear_zero (suc size) zero (d ∷ buf) h k = refl
clear_zero (suc size) (suc i) (d ∷ buf) h k = clear_zero size i buf (omega arith) (omega arith)

module _ (n : ℕ) (text buf : List ℕ) where
  stored : length (take (n - 1) text ++ 0 ∷ []) ≤ n - 1 + 1
  stored = omega (arith, length-append (take (n - 1) text) (0 ∷ []), length-take_le (n - 1) text)

  -- Nothing is written from byte `n` on, and the array keeps its size.
  pub length-snprintf : length (snprintf n text buf) ≡ length buf
  unfolding snprintf
  length-snprintf = elim (Bool-cases (n == 0)) [
    | inl no_bytes ↦ rw no_bytes refl
    | inr some_bytes ↦ rw some_bytes (length-overwrite (take (n - 1) text ++ 0 ∷ []) buf)
  ]

  pub drop-snprintf : (m : ℕ) → n ≤ m → drop m (snprintf n text buf) ≡ drop m buf
  unfolding snprintf
  drop-snprintf m h = elim (Bool-cases (n == 0)) [
    | inl no_bytes ↦ rw no_bytes refl
    | inr some_bytes ↦
        rw some_bytes (drop-overwrite m (take (n - 1) text ++ 0 ∷ []) buf (ground (arith, stored)))
  ]

  pub get_elem?-snprintf_after :
      (i : ℕ) → n ≤ i → get_elem? (snprintf n text buf) i ≡ get_elem? buf i
  unfolding snprintf
  get_elem?-snprintf_after i h = elim (Bool-cases (n == 0)) [
    | inl no_bytes ↦ rw no_bytes refl
    | inr some_bytes ↦
        rw some_bytes
          (get_elem?-overwrite_after (take (n - 1) text ++ 0 ∷ []) buf i (ground (arith, stored)))
  ]

-- what a read of `size` bytes leaves in the buffer: a text that ends within them, and nothing behind
pub record IsFilled (size : ℕ) (buf buf' : List ℕ) : Type 0 where
  pub same_size : length buf' ≡ length buf
  pub terminated : get_elem? buf' (size - 1) ≡ some 0
  pub behind_kept : drop size buf' ≡ drop size buf

pub filled :
    (text buf : List ℕ) (size : ℕ)
    → 1 ≤ size
    → size ≤ length buf
    → size < 2 ^ 64
    → IsFilled size buf (snprintf ((size + 2 ^ 64 - 1) % 2 ^ 64) text (clear size buf))
filled text buf size some_byte fits small =
    let n : (size + 2 ^ 64 - 1) % 2 ^ 64 ≡ size - 1 = omega arith in
    rw n (record {
      same_size =
          length-snprintf (size - 1) text (clear size buf)
          ∙ length-overwrite (replicate size 0) buf;
      terminated =
          get_elem?-snprintf_after (size - 1) text (clear size buf) (size - 1) (omega arith)
          ∙ clear_zero size (size - 1) buf (omega arith) (omega arith);
      behind_kept =
          drop-snprintf (size - 1) text (clear size buf) size (omega arith)
          ∙ drop-overwrite size (replicate size 0) buf
              (omega (arith, length-replicate {A = ℕ} size 0));
    })

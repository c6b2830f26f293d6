-- ===== src/Netlink/Laws.antt =====
-- What the program prints, against the strings that a message consists of.
use emer_gen_z.Base.{
  ℕ, zero, suc, ◌+◌, ◌-◌, ◌≤◌, ◌<◌, ◌≡◌, refl, ◌≢◌, ◌⊎◌, inl, inr, ◌==◌, Bool, some, List, [], ◌∷◌,
  ◌++◌, arith, if◌then◌else◌, drop, replicate, length, overwrite, length-append, All, ==→eq, ne→==,
  Bool-cases, ap, sym, ◌∙◌,
}
use mathlib.Core.List.{append_assoc}
use emer_gen_z.Text.{codes, c_string, streq}
use emer_gen_z.Bridge.Write.{strchr}
use emer_gen_z.Netlink.{strlen, is_printed, put_line, print_strings, buffer_size, print_message}

abbrev pub cons_head : ℕ → List (List ℕ) → List (List ℕ)
cons_head c [] = (c ∷ []) ∷ []
cons_head c (s ∷ ss) = (c ∷ s) ∷ ss

-- the strings of a message: each ends with a NUL, or with the message
unfoldable pub split_at_nuls : List ℕ → List (List ℕ)
split_at_nuls [] = []
split_at_nuls (c ∷ s) = let rest = split_at_nuls s in if c == 0 then [] ∷ rest else cons_head c rest

unfoldable pub keep : (List ℕ → Bool) → List (List ℕ) → List (List ℕ)
keep p [] = []
keep p (s ∷ ss) = let rest = keep p ss in if p s then s ∷ rest else rest

abbrev IsNulFree : List ℕ → Type 0
IsNulFree s = All (λ (c : ℕ). c ≢ 0) s

-- A message is one string, or begins with one and its NUL.
first_string :
    (bytes : List ℕ)
    → IsNulFree bytes ⊎ ((s : List ℕ) × (more : List ℕ) × IsNulFree s × (bytes ≡ s ++ 0 ∷ more))
first_string [] = inl tt
first_string (c ∷ bytes) = elim (Bool-cases (c == 0)) [
  | inl nul ↦ inr ([], bytes, tt, ap (λ x. x ∷ bytes) (==→eq c 0 nul))
  | inr other ↦ elim (first_string bytes) [
    | inl free ↦ inl ((λ e. ground arith), free)
    | inr (s, more, free, e) ↦
        inr (c ∷ s, more, ((λ e. ground arith), free), ap (λ (t : List ℕ). c ∷ t) e)
  ]
]

module _ (t : List ℕ) where
  strlen-append : (s : List ℕ) → IsNulFree s → strlen (s ++ 0 ∷ t) ≡ some (length s)
  unfolding strlen
  strlen-append [] free = refl
  strlen-append (c ∷ s) free = rw (ne→== c 0 free.0) (rw (strlen-append s free.1) refl)

  c_string-append : (s : List ℕ) → IsNulFree s → c_string (s ++ 0 ∷ t) ≡ s
  unfolding c_string
  c_string-append [] free = refl
  c_string-append (c ∷ s) free =
      rw (ne→== c 0 free.0) (ap (λ (x : List ℕ). c ∷ x) (c_string-append s free.1))

  drop-append : (s : List ℕ) → drop (length s + 1) (s ++ 0 ∷ t) ≡ t
  drop-append [] = refl
  drop-append (c ∷ s) =
      let e : length (c ∷ s) + 1 ≡ suc (length s + 1) = omega arith in rw e (drop-append s)

  streq-append : (s u : List ℕ) → IsNulFree s → streq (s ++ 0 ∷ t) u ≡ streq s u
  unfolding streq
  streq-append [] [] free = refl
  streq-append [] (d ∷ u) free = ground arith
  streq-append (c ∷ s) [] free = refl
  streq-append (c ∷ s) (d ∷ u) free = rw (streq-append s u free.1) refl

  strchr-append : (s : List ℕ) (c : ℕ) → c ≢ 0 → IsNulFree s → strchr (s ++ 0 ∷ t) c ≡ strchr s c
  unfolding strchr
  strchr-append [] c ne free = rw (ne→== 0 c (λ e. ne (sym e))) refl
  strchr-append (d ∷ s) c ne free = rw (strchr-append s c ne free.1) refl

  is_printed-append : (s : List ℕ) → IsNulFree s → is_printed (s ++ 0 ∷ t) ≡ is_printed s
  unfolding is_printed
  is_printed-append s free =
      rw (streq-append s (codes "libudev") free) (rw (strchr-append s b'=' (omega arith) free) refl)

split_at_nuls-append :
    (s more : List ℕ) → IsNulFree s → split_at_nuls (s ++ 0 ∷ more) ≡ s ∷ split_at_nuls more
unfolding split_at_nuls
split_at_nuls-append [] more free = refl
split_at_nuls-append (c ∷ s) more free =
    rw (ne→== c 0 free.0) (rw (split_at_nuls-append s more free.1) refl)

split_at_nuls-one : (c : ℕ) (s : List ℕ) → IsNulFree (c ∷ s) → split_at_nuls (c ∷ s) ≡ (c ∷ s) ∷ []
unfolding split_at_nuls
split_at_nuls-one c [] free = rw (ne→== c 0 free.0) refl
split_at_nuls-one c (d ∷ s) free =
    rw (ne→== c 0 free.0) (ap (cons_head c) (split_at_nuls-one d s free.1))

-- one round of the loop, at a string with its NUL
print_step :
    (fuel left : ℕ) (s t : List ℕ)
    → IsNulFree s
    → print_strings (suc fuel) (suc left) (s ++ 0 ∷ t)
      ≡ put_line (is_printed s) (s ++ 0 ∷ t) (print_strings fuel (suc left - (length s + 1)) t)
unfolding print_strings
print_step fuel left s t free =
    rw (strlen-append t s free, print_strings)
      (rw (drop-append t s) (rw (is_printed-append t s free) refl))

put_line-keep :
    (s t : List ℕ) (ss : List (List ℕ))
    → IsNulFree s
    → put_line (is_printed s) (s ++ 0 ∷ t) (some (keep is_printed ss))
      ≡ some (keep is_printed (s ∷ ss))
unfolding keep
put_line-keep s t ss free = elim (Bool-cases (is_printed s)) [
  | inl yes_printed ↦
      rw yes_printed (ap (λ u. some (u ∷ keep is_printed ss)) (c_string-append t s free))
  | inr not_printed ↦ rw not_printed refl
]

abbrev Prints : (fuel : ℕ) → (bytes zeros : List ℕ) → Type 0
Prints fuel bytes zeros =
    print_strings fuel (length bytes) (bytes ++ 0 ∷ zeros)
    ≡ some (keep is_printed (split_at_nuls bytes))

print_strings-keep :
    (fuel : ℕ) (bytes zeros : List ℕ) → length bytes ≤ fuel → Prints fuel bytes zeros
unfolding print_strings split_at_nuls keep
print_strings-keep zero [] zeros h = refl
print_strings-keep (suc fuel) [] zeros h = refl
print_strings-keep zero (c ∷ b) zeros h = absurd (omega arith)
print_strings-keep (suc fuel) (c ∷ b) zeros h = elim (first_string (c ∷ b)) [
  | inl free ↦
      let none_left : suc (length b) - (length (c ∷ b) + 1) ≡ 0 = omega arith in
      print_step fuel (length b) (c ∷ b) zeros free
      ∙ (ap (λ n. put_line (is_printed (c ∷ b)) ((c ∷ b) ++ 0 ∷ zeros) (print_strings fuel n zeros))
            none_left
          ∙ (put_line-keep (c ∷ b) zeros [] free
              ∙ ap (λ ss. some (keep is_printed ss)) (sym (split_at_nuls-one c b free))))
  | inr (s, more, free, e) ↦
      let len : suc (length b) ≡ length s + suc (length more) =
        ap length e ∙ length-append s (0 ∷ more) in
      let left : suc (length b) - (length s + 1) ≡ length more = omega (arith, len) in
      let ih = print_strings-keep fuel more zeros (omega (arith, len)) in
      let t = more ++ 0 ∷ zeros in
      ap (print_strings (suc fuel) (suc (length b)))
        (ap (λ (x : List ℕ). x ++ 0 ∷ zeros) e ∙ append_assoc s (0 ∷ more) (0 ∷ zeros))
      ∙ (print_step fuel (length b) s t free
          ∙ (ap (λ n. put_line (is_printed s) (s ++ 0 ∷ t) (print_strings fuel n t)) left
              ∙ (ap (put_line (is_printed s) (s ++ 0 ∷ t)) ih
                  ∙ (put_line-keep s t (split_at_nuls more) free
                      ∙ ap (λ ss. some (keep is_printed ss))
                          (sym (split_at_nuls-append s more free) ∙ ap split_at_nuls (sym e))))))
]

-- the buffer behind `recv`
overwritten :
    (xs : List ℕ) (n : ℕ)
    → length xs < n
    → overwrite xs (replicate n 0) ≡ xs ++ 0 ∷ replicate (n - length xs - 1) 0
overwritten xs zero h = absurd (omega arith)
overwritten [] (suc n) h = ap (λ k. 0 ∷ replicate k 0) (omega arith)
overwritten (x ∷ xs) (suc n) h =
    ap (λ (s : List ℕ). x ∷ s)
      (overwritten xs n (omega arith) ∙ ap (λ k. xs ++ 0 ∷ replicate k 0) (omega arith))

-- A message that leaves a byte of the buffer free is printed within the buffer: of the strings that it
-- consists of, in order, exactly those that are "libudev" or have an equals sign.
pub print_message-keep :
    (message : List ℕ)
    → length message < buffer_size
    → print_message message ≡ some (keep is_printed (split_at_nuls message))
unfolding print_message
print_message-keep message h =
    ap (print_strings (length message) (length message)) (overwritten message buffer_size h)
    ∙ print_strings-keep (length message) message (replicate (buffer_size - length message - 1) 0)
        (omega arith)

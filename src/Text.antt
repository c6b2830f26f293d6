-- ===== src/Text.antt =====
-- The C string functions that the sources call, over lists of bytes. A string ends at its first NUL;
-- the end of a list reads as a NUL.
pub mod Buffer
pub mod Decimal
pub mod Format
use Prim.Native.Char.{code}
use Prim.Native.String.{String}
use emer_gen_z.Base.{
  ℕ, zero, suc, Bool, true, Option, none, some, List, [], ◌∷◌, ◌++◌, take, drop, replicate, ◌&&◌,
  ◌||◌, ◌==◌, if◌then◌else◌,
}

-- the bytes of an ASCII literal
abbrev pub codes : String → List ℕ
codes String.[] = []
codes (String.◌∷◌ c s) = code c ∷ codes s

-- the string that an array holds: its bytes before the first NUL
unfoldable pub c_string : List ℕ → List ℕ
c_string [] = []
c_string (c ∷ s) = if c == 0 then [] else c ∷ c_string s

-- `!strcmp(s, t)`
unfoldable pub streq : List ℕ → List ℕ → Bool
streq [] [] = true
streq [] (d ∷ t) = d == 0
streq (c ∷ s) [] = c == 0
streq (c ∷ s) (d ∷ t) = (c == d) && (c == 0 || streq s t)

-- `!strncmp(s, t, n)`
unfoldable pub streq_n : List ℕ → List ℕ → ℕ → Bool
streq_n s t zero = true
streq_n [] [] (suc n) = true
streq_n [] (d ∷ t) (suc n) = d == 0
streq_n (c ∷ s) [] (suc n) = c == 0
streq_n (c ∷ s) (d ∷ t) (suc n) = (c == d) && (c == 0 || streq_n s t n)

-- `strncpy` of `n` bytes: the text is cut, or filled up with NULs
unfoldable pub strncpy : (dest src : List ℕ) → (n : ℕ) → List ℕ
strncpy dest src n = take n (src ++ replicate n 0) ++ drop n dest

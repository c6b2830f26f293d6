-- ===== src/Text/Format.antt =====
-- `sprintf` and `sscanf` with the conversions that the sources use. A format is a list of
-- directives, which is shared by what prints a message and what reads it.
pub mod RoundTrip
use Prim.Native.String.{String}
use emer_gen_z.Base.{
  ℕ, zero, suc, ◌+◌, ◌≤◌, ◌<◌, ◌≡◌, refl, Bool, true, false, ◌||◌, Option, none, some, List, [],
  ◌∷◌, ◌++◌, arith, ◌==◌, leb, ◌&&◌, if◌then◌else◌, length, ℤ, All, length-append,
}
use emer_gen_z.Text.Decimal.{decimal_int, scan_int}

-- `blank` is white space in the format: `sprintf` prints a space, `sscanf` skips any white space.
pub data Directive : Type 0 where
  lit : ℕ → Directive
  blank : Directive
  dec : Directive
  str : Directive

pub data Arg : Type 0 where
  int : ℤ → Arg
  text : List ℕ → Arg

abbrev pub lits : List ℕ → List Directive → List Directive
lits [] f = f
lits (c ∷ s) f = lit c ∷ lits s f

-- a missing argument prints nothing; the sources give each directive its argument
unfoldable pub sprintf : List Directive → List Arg → List ℕ
sprintf [] args = []
sprintf (lit c ∷ f) args = c ∷ sprintf f args
sprintf (blank ∷ f) args = b' ' ∷ sprintf f args
sprintf (dec ∷ f) (int z ∷ args) = decimal_int z ++ sprintf f args
sprintf (dec ∷ f) (text s ∷ args) = sprintf f args
sprintf (dec ∷ f) [] = sprintf f []
sprintf (str ∷ f) (text s ∷ args) = s ++ sprintf f args
sprintf (str ∷ f) (int z ∷ args) = sprintf f args
sprintf (str ∷ f) [] = sprintf f []

abbrev pub is_space : ℕ → Bool
is_space c = c == b' ' || (leb 9 c && leb c 13)

unfoldable pub skip_spaces : List ℕ → List ℕ
skip_spaces [] = []
skip_spaces (c ∷ s) = let rest = skip_spaces s in if is_space c then rest else c ∷ s

-- The values that were read, in order: their number is what `sscanf` returns.
unfoldable pub sscanf : List ℕ → List Directive → List ℤ
sscanf s [] = []
sscanf s (lit c ∷ f) = elim s [ [] ↦ [] | d ∷ r ↦ elim (c == d) [ true ↦ sscanf r f | false ↦ [] ] ]
sscanf s (blank ∷ f) = sscanf (skip_spaces s) f
sscanf s (dec ∷ f) = elim (scan_int (skip_spaces s)) [ none ↦ [] | some (z, r) ↦ z ∷ sscanf r f ]
sscanf s (str ∷ f) = []

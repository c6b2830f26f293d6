-- ===== src/Netlink.antt =====
-- netlink/kuns.c: a program that prints the strings of the kernel's hotplug messages.
pub mod Laws
use emer_gen_z.Base.{
  ℕ, zero, suc, ◌+◌, ◌-◌, ◌==◌, Bool, true, false, ◌||◌, Option, none, some, List, [], ◌∷◌, ◌++◌,
  if◌then◌else◌, drop, replicate, length, overwrite,
}
use emer_gen_z.Text.{codes, c_string, streq}
use emer_gen_z.Bridge.Write.{strchr}

-- the distance of the next NUL; `none` where the array ends before one
unfoldable pub strlen : List ℕ → Option ℕ
strlen [] = none
strlen (c ∷ s) =
    let rest : Option ℕ = elim (strlen s) [ none ↦ none | some n ↦ some (suc n) ] in
    if c == 0 then some 0 else rest

-- `!strcmp(start, "libudev") || strchr(start, '=')`
unfoldable pub is_printed : List ℕ → Bool
is_printed s = streq s (codes "libudev") || (elim (strchr s b'=') [ none ↦ false | some _ ↦ true ])

abbrev pub put_line : Bool → List ℕ → Option (List (List ℕ)) → Option (List (List ℕ))
put_line b s none = none
put_line b s (some lines) = if b then some (c_string s ∷ lines) else some lines

-- `while (start < eobuf)`: the array from `start` on, and `eobuf - start`. The lines that are printed;
-- `none` where a string has no end in the array, or where the fuel runs out.
unfoldable pub print_strings : (fuel left : ℕ) → List ℕ → Option (List (List ℕ))
print_strings fuel zero s = some []
print_strings zero (suc left) s = none
print_strings (suc fuel) (suc left) s = elim (strlen s) [
  | none ↦ none
  | some n ↦ put_line (is_printed s) s (print_strings fuel (suc left - (n + 1)) (drop (n + 1) s))
]

abbrev pub buffer_size : ℕ
buffer_size = 4096

-- `memset` and `recv` of a message into the buffer, and the loop
unfoldable pub print_message : (message : List ℕ) → Option (List (List ℕ))
print_message message =
    print_strings (length message) (length message) (overwrite message (replicate buffer_size 0))

-- What `poll` and `recv` give in one round.
pub data Round : Type 0 where
  poll_failed : Round
  timed_out : Round
  recv_failed : Round
  received : List ℕ → Round

-- why the program ends: the argument of `die`, or a string without an end
pub data Death : Type 0 where
  die : List ℕ → Death
  overrun : Death

-- what is printed, and how the program ends; the rounds that are given may end before it
abbrev pub Output : Type 0
Output = List (List ℕ) × Option Death

abbrev pub put_lines : Option (List (List ℕ)) → Output → Output
put_lines none rest = ([], some overrun)
put_lines (some lines) (more, end) = (lines ++ more, end)

unfoldable pub poll_loop : List Round → Output
poll_loop [] = ([], none)
poll_loop (poll_failed ∷ rounds) = ([], some (die (codes "poll")))
poll_loop (timed_out ∷ rounds) = ([], some (die (codes "timeout")))
poll_loop (recv_failed ∷ rounds) = ([], some (die (codes "recv")))
poll_loop (received message ∷ rounds) = put_lines (print_message message) (poll_loop rounds)

unfoldable pub kuns_main : (socket_made bound : Bool) → List Round → Output
kuns_main socket_made bound rounds =
    if socket_made
    then if bound then poll_loop rounds else ([], some (die (codes "bind()")))
    else ([], some (die (codes "socket()")))

-- ===== src/Examples/Netlink.antt =====
-- The theorem on netlink/kuns.c, at a message of three strings, of which the last has no NUL.
use emer_gen_z.Base.{◌≡◌, some, List, ℕ, ◌∷◌, ◌++◌, arith}
use emer_gen_z.Text.{codes}
use emer_gen_z.Netlink.{is_printed, print_message}
use emer_gen_z.Netlink.Laws.{split_at_nuls, keep, print_message-keep}

abbrev message : List ℕ
message = codes "add@/devices" ++ 0 ∷ (codes "libudev" ++ 0 ∷ codes "ACTION=add")

print_example : print_message message ≡ some (keep is_printed (split_at_nuls message))
print_example = print_message-keep message (omega arith)

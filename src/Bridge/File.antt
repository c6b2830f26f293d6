-- ===== src/Bridge/File.antt =====
-- `gf_bridge_open`, `gf_bridge_flush`, `gf_bridge_release` and `gf_bridge_poll`.
pub mod Laws
use Prim.Native.Nat.{bit_or}
use emer_gen_z.Base.{
  ℕ, zero, suc, ◌+◌, ◌-◌, ◌==◌, Bool, true, false, Option, none, some, if◌then◌else◌, replicate, ℤ,
  pos, negsuc, nonzero, eq_ℤ, to_int, error, enomem, ebusy,
}
use emer_gen_z.Fee.{BridgeBuffers, Adapter, World, Run, done, fault, Cmd}

-- `atomic_add_return(1, …)` and `atomic_dec`, on an `int` that wraps
abbrev pub increment : ℤ → ℤ
increment (pos n) = to_int (pos (n + 1))
increment (negsuc zero) = pos 0
increment (negsuc (suc n)) = negsuc n

abbrev pub decrement : ℤ → ℤ
decrement (pos zero) = negsuc 0
decrement (pos (suc n)) = pos n
decrement (negsuc n) = to_int (negsuc (n + 1))

-- `alldone` with an error: the user is counted off again
abbrev pub open_failed : ℤ → Cmd ℤ
open_failed ret a w = done ret (record a { nr_users = decrement a.nr_users }) w

-- Whether the two `kzalloc`s succeed is not the driver's to say.
unfoldable pub gf_bridge_open : (buffers_alloc wbuf_alloc : Bool) → Cmd ℤ
gf_bridge_open buffers_alloc wbuf_alloc a w =
    let a' : Adapter = record a { nr_users = increment a.nr_users } in
    if eq_ℤ a'.nr_users (pos 1)
    then if buffers_alloc
      then if wbuf_alloc
        then done (pos 0)
            (record a' {
              outgoing = some (record { wbuf = replicate a.max_buflen 0; wbuf_locked = false });
            })
            w
        else open_failed (error enomem) a' w
      else open_failed (error enomem) a' w
    else open_failed (error ebusy) a' w

-- at any close of a file descriptor; `f_count` counts the references to the open file
unfoldable pub gf_bridge_flush : (f_count : ℕ) → Cmd ℤ
gf_bridge_flush f_count a w =
    if f_count == 1
    then done (pos 0) (record a { nr_users = decrement a.nr_users }) w
    else done (pos 0) a w

-- at the last close; `BUG_ON(nr_users)` and a NULL `outgoing` are faults
unfoldable pub gf_bridge_release : Cmd ℤ
gf_bridge_release a w =
    if nonzero a.nr_users
    then fault
    else elim a.outgoing [ none ↦ fault | some _ ↦ done (pos 0) (record a { outgoing = none }) w ]

abbrev pub pollin : ℕ
pollin = 0x1

abbrev pub pollrdnorm : ℕ
pollrdnorm = 0x40

abbrev pub pollout : ℕ
pollout = 0x4

abbrev pub pollwrnorm : ℕ
pollwrnorm = 0x100

unfoldable pub gf_bridge_poll : Adapter → World → ℕ
gf_bridge_poll a w =
    let readable = bit_or pollin pollrdnorm in
    if (w.mem a.my_slot).buflen == 0 then bit_or readable (bit_or pollout pollwrnorm) else readable

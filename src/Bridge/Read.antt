-- ===== src/Bridge/Read.antt =====
-- `gf_bridge_read`: "CID,SID:" and the message, by two copies to the user's buffer.
pub mod Laws
use emer_gen_z.Base.{
  ℕ, ◌+◌, ◌-◌, ◌%◌, ◌^◌, ◌==◌, Bool, true, false, ◌||◌, Option, none, some, List, [], ◌∷◌, ◌++◌,
  ltb, leb, if◌then◌else◌, length, take, ℤ, pos, negsuc, nonzero, int_of_bits, error, e2big, efault,
}
use emer_gen_z.Text.Decimal.{decimal}
use emer_gen_z.Fee.{Mailslot, Adapter, World, Run, done, fault, Cmd, ◌>>=◌, ◌>>◌, pure, get_world}
use emer_gen_z.Incoming.{
  WaitEvent, Awaited, slot_ptr, err_ptr, fee_await_incoming, fee_release_incoming,
}

-- What a read meets: the wait, and the results of the two calls of `copy_to_user`, which count the
-- bytes that were not copied, or are negative.
pub record ReadEnv : Type 0 where
  pub wait : WaitEvent
  pub nonblocking : Bool
  pub first_copy : ℤ
  pub second_copy : ℤ

-- What a read does: its result, each copy as an offset in the user's buffer and the bytes, and whether
-- it sets the position of the file to 0.
pub record ReadResult : Type 0 where
  pub ret : ℤ
  pub copies : List (ℕ × List ℕ)
  pub rewinds : Bool

-- "%llu,%llu:"
unfoldable pub sidcid_text : Mailslot → List ℕ
sidcid_text s = decimal s.peer_cid ++ b',' ∷ (decimal s.peer_sid ++ b':' ∷ [])

-- `snprintf` with a limit of 31 stores at most 30 bytes and a NUL.
unfoldable pub sidcidstr : List ℕ → List ℕ
sidcidstr t = take 30 t ++ 0 ∷ []

-- a count of bytes left, or an error, of a copy that failed
abbrev pub copy_error : ℤ → ℤ
copy_error (pos n) = error efault
copy_error (negsuc n) = negsuc n

-- `ret > 0`
abbrev pub is_above : ℤ → Bool
is_above (pos n) = ltb 0 n
is_above (negsuc n) = false

unfoldable pub copy_out : ReadEnv → (buflen : ℕ) → Mailslot → ReadResult
copy_out env buflen s =
    let t = sidcid_text s in
    let n = length t in
    if leb 32 n || ltb buflen ((s.buflen + n - 1) % 2 ^ 64)
    then record { ret = error e2big; copies = []; rewinds = false }
    else if nonzero env.first_copy
    then record {
      ret = copy_error env.first_copy;
      copies = (0, take n (sidcidstr t)) ∷ [];
      rewinds = false;
    }
    else let ret =
        if nonzero env.second_copy
        then copy_error env.second_copy
        else int_of_bits (s.buflen + n) in
      record {
        ret = ret;
        copies = (0, take n (sidcidstr t)) ∷ (n, take s.buflen s.buf) ∷ [];
        rewinds = is_above ret;
      }

-- From the slot on. The copies may sleep: `meanwhile` is what the interrupts of this client do between
-- them and the release, which whatever came of the copies frees the slot that waits by then.
unfoldable pub read_slot :
    (meanwhile : Cmd Bool) → ReadEnv → (buflen : ℕ) → Awaited → Cmd ReadResult
read_slot meanwhile env buflen (err_ptr ret) =
    pure (record { ret = ret; copies = []; rewinds = false })
read_slot meanwhile env buflen (slot_ptr none) = λ _ _. fault
read_slot meanwhile env buflen (slot_ptr (some p)) =
    get_world >>= λ w. meanwhile >> (fee_release_incoming >> pure (copy_out env buflen (w.mem p)))

unfoldable pub gf_bridge_read_amid :
    (meanwhile : Cmd Bool) → ReadEnv → (buflen : ℕ) → Cmd ReadResult
gf_bridge_read_amid meanwhile env buflen =
    fee_await_incoming env.wait env.nonblocking >>= read_slot meanwhile env buflen

-- a read that no interrupt of this client comes into
unfoldable pub gf_bridge_read : ReadEnv → (buflen : ℕ) → Cmd ReadResult
gf_bridge_read env buflen = gf_bridge_read_amid (pure true) env buflen

-- ===== src/Bridge/Write.antt =====
-- `gf_bridge_write`: the destination before the first colon, the message behind it, and up to three
-- tries to send it.
pub mod Laws
use emer_gen_z.Base.{
  ℕ, zero, suc, ◌+◌, ◌-◌, ◌%◌, ◌^◌, ◌==◌, Bool, true, false, ◌||◌, Option, none, some, List, [],
  ◌∷◌, ltb, leb, if◌then◌else◌, length, take, drop, set, overwrite, ℤ, pos, negsuc, nonzero, is_neg,
  eq_ℤ, to_u64, int_of_bits, error, e2big, efault, ebadmsg, eio, etimedout, erestartsys,
}
use emer_gen_z.Text.{codes, streq}
use emer_gen_z.Fee.{
  BridgeBuffers, Mailslot, Adapter, World, Run, done, fault, Cmd, ◌>>=◌, ◌>>◌, pure,
}
use emer_gen_z.Outgoing.{Env, fee_create_outgoing, genz_fee_sid_cid_is_peer_id}

-- What a write meets: `copy_from_user`'s result, `kstrtoint` with base 0 as its result and the value
-- that it stores, and the circumstances of each try to send.
pub record WriteEnv : Type 0 where
  pub copy_from_user : ℤ
  pub kstrtoint : List ℕ → ℤ × ℤ
  pub try_env : ℕ → Env

-- the index of a byte in a string
unfoldable pub strchr : List ℕ → ℕ → Option ℕ
strchr [] c = none
strchr (d ∷ s) c =
    let rest : Option ℕ = elim (strchr s c) [ none ↦ none | some i ↦ some (suc i) ] in
    if d == c then some 0 else if d == 0 then none else rest

-- `kstrtoint` of the CID, and of the SID where there is one: an error, or the pair CID, SID
pub data Destination : Type 0 where
  to : (cid sid : ℤ) → Destination
  bad : ℤ → Destination

-- the names of the server
unfoldable pub is_server_name : List ℕ → Bool
is_server_name s =
    streq s (codes "server")
    || (streq s (codes "switch") || (streq s (codes "link") || streq s (codes "interface")))

unfoldable pub two_numbers : WriteEnv → (cid_text sid_text : List ℕ) → Destination
two_numbers env cid_text sid_text =
    let (ret, cid) = env.kstrtoint cid_text in
    let (ret', sid) = env.kstrtoint sid_text in
    if nonzero ret then bad ret else if nonzero ret' then bad ret' else to cid sid

unfoldable pub one_number : WriteEnv → (cid_text : List ℕ) → Destination
one_number env cid_text =
    let (ret, cid) = env.kstrtoint cid_text in
    if nonzero ret then bad ret else to cid genz_fee_sid_cid_is_peer_id

-- from the text before the colon
unfoldable pub destination : WriteEnv → Adapter → List ℕ → Destination
destination env a head =
    if is_server_name head
    then to (int_of_bits a.globals.server_id) genz_fee_sid_cid_is_peer_id
    else elim (strchr head b',') [
      | none ↦ one_number env head
      | some j ↦ two_numbers env (take j head) (drop (j + 1) head)
    ]

-- the result of a try that is not to be repeated
unfoldable pub conclude : (ret : ℤ) → (buflen successlen : ℕ) → ℤ
conclude ret buflen successlen =
    if to_u64 ret == buflen then int_of_bits successlen else if is_neg ret then ret else error eio

-- `restart`: `left` counts the restarts that remain, `tried` the tries before this one
unfoldable pub send_restarting :
    WriteEnv → (left tried : ℕ) → (cid sid : ℤ) → List ℕ → (successlen : ℕ) → Cmd ℤ
send_restarting env zero tried cid sid buf successlen =
    fee_create_outgoing (env.try_env tried) cid sid buf >>= λ ret.
    if eq_ℤ ret (error erestartsys)
    then pure (error etimedout)
    else pure (conclude ret (length buf) successlen)
send_restarting env (suc left) tried cid sid buf successlen =
    fee_create_outgoing (env.try_env tried) cid sid buf >>= λ ret.
    let again = send_restarting env left (tried + 1) cid sid buf successlen in
    if eq_ℤ ret (error erestartsys) then again else pure (conclude ret (length buf) successlen)

-- `wbuf` after the call: the colon and the comma that were found are NULs.
unfoldable pub chop : List ℕ → List ℕ
chop wbuf = elim (strchr wbuf b':') [
  | none ↦ wbuf
  | some i ↦
      if is_server_name (take i wbuf) then set wbuf i 0 else elim (strchr (take i wbuf) b',') [
        | none ↦ set wbuf i 0
        | some j ↦ set (set wbuf i 0) j 0
      ]
]

abbrev pub put_buffers : List ℕ → (wbuf_locked : Bool) → Cmd (Unit {0})
put_buffers wbuf l a w =
    done tt (record a { outgoing = some (record { wbuf = wbuf; wbuf_locked = l }) }) w

unfoldable pub send_to : WriteEnv → Destination → List ℕ → (successlen : ℕ) → Cmd ℤ
send_to env (bad ret) buf successlen = pure ret
send_to env (to cid sid) buf successlen = send_restarting env 2 0 cid sid buf successlen

-- With the user's bytes in `wbuf`. `buflen -= bufbody - wbuf` is a difference of unsigned numbers.
unfoldable pub send_text : WriteEnv → (wbuf : List ℕ) → (buflen : ℕ) → Cmd ℤ
send_text env wbuf buflen a w = elim (strchr wbuf b':') [
  | none ↦ done (error ebadmsg) a w
  | some i ↦
      send_to env (destination env a (take i wbuf))
        (take ((buflen + 2 ^ 64 - (i + 1)) % 2 ^ 64) (drop (i + 1) wbuf)) buflen a w
]

-- between `mutex_lock` and `mutex_unlock`
unfoldable pub write_buffer : WriteEnv → (user : List ℕ) → BridgeBuffers → Cmd ℤ
write_buffer env user b =
    if nonzero env.copy_from_user
    then put_buffers b.wbuf false
      >> pure (elim env.copy_from_user [ pos n ↦ error efault | negsuc n ↦ negsuc n ])
    else let wbuf = set (overwrite user b.wbuf) (length user) 0 in
      put_buffers wbuf true
      >> (send_text env wbuf (length user) >>= λ ret. put_buffers (chop wbuf) false >> pure ret)

-- `user` holds the `buflen` bytes that the caller offers. `max_buflen - 1` is unsigned.
unfoldable pub gf_bridge_write : WriteEnv → (user : List ℕ) → Cmd ℤ
gf_bridge_write env user a w =
    if leb ((a.max_buflen + 2 ^ 64 - 1) % 2 ^ 64) (length user)
    then done (error e2big) a w
    else elim a.outgoing [ none ↦ fault | some b ↦ write_buffer env user b a w ]

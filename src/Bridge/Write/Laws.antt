-- ===== src/Bridge/Write/Laws.antt =====
-- Where a written text goes, and that a write ends.
use emer_gen_z.Base.{
  ℕ, zero, suc, ◌+◌, ◌-◌, ◌%◌, ◌^◌, ◌<◌, ◌≡◌, refl, ◌≢◌, inl, inr, true, false, none, some, List,
  [], ◌∷◌, ◌++◌, arith, leb, length, take, drop, set, overwrite, length-append, ℤ, pos, eq_ℤ,
  int_of_bits, int_of_bits-small, error, ebadmsg, erestartsys, etimedout, Bool-cases, ◌∙◌, ap,
}
use mathlib.Core.List.{append_assoc}
use emer_gen_z.Fee.{BridgeBuffers, Adapter, World, Run, done, Cmd, and_then, ◌>>◌, pure}
use emer_gen_z.Outgoing.Wait.{Ticks}
use emer_gen_z.Outgoing.Deliver.{fee_create_outgoing-total}
use emer_gen_z.Bridge.Write.{
  WriteEnv, strchr, destination, conclude, send_restarting, chop, put_buffers, send_to, send_text,
  write_buffer, gf_bridge_write,
}

-- a byte string without colon and NUL
abbrev pub IsPlain : List ℕ → Type 0
IsPlain [] = Unit
IsPlain (c ∷ s) = (c ≢ b':') × ((c ≢ 0) × IsPlain s)

-- the bytes that a write leaves in a buffer of length `n`: the text, a NUL, and what was there
terminated :
    (user ds : List ℕ)
    → length user < length ds
    → set (overwrite user ds) (length user) 0 ≡ user ++ 0 ∷ drop (suc (length user)) ds
terminated [] [] h = absurd (omega arith)
terminated [] (d ∷ ds) h = refl
terminated (c ∷ user) [] h = absurd (omega arith)
terminated (c ∷ user) (d ∷ ds) h = ap (λ (s : List ℕ). c ∷ s) (terminated user ds (omega arith))

-- The colon behind a plain text is found, and the text before it and the bytes behind it come back.
strchr-finds :
    (head rest : List ℕ) → IsPlain head → strchr (head ++ b':' ∷ rest) b':' ≡ some (length head)
unfolding strchr
strchr-finds [] rest plain = refl
strchr-finds (c ∷ head) rest plain =
    let e = strchr-finds head rest plain.1.1 in ground (arith, e, plain.0, plain.1.0)

strchr-misses : (text rest : List ℕ) → IsPlain text → strchr (text ++ 0 ∷ rest) b':' ≡ none
unfolding strchr
strchr-misses [] rest plain = refl
strchr-misses (c ∷ text) rest plain =
    let e = strchr-misses text rest plain.1.1 in ground (arith, e, plain.0, plain.1.0)

take-append : (xs ys : List ℕ) → take (length xs) (xs ++ ys) ≡ xs
take-append [] ys = refl
take-append (x ∷ xs) ys = ap (λ (s : List ℕ). x ∷ s) (take-append xs ys)

drop-append : (xs : List ℕ) (y : ℕ) (ys : List ℕ) → drop (suc (length xs)) (xs ++ y ∷ ys) ≡ ys
drop-append [] y ys = refl
drop-append (x ∷ xs) y ys = (drop-append xs y ys)

-- what a write leaves in the buffer before it looks for the colon
abbrev pub written : List ℕ → BridgeBuffers → List ℕ
written user b = set (overwrite user b.wbuf) (length user) 0

-- with the mutex, while the message goes out
abbrev pub writing : Adapter → BridgeBuffers → List ℕ → Adapter
writing a b user = record a {
  outgoing = some (record { wbuf = written user b; wbuf_locked = true });
}

-- and afterwards
abbrev pub settle : BridgeBuffers → List ℕ → ℤ → Cmd ℤ
settle b user ret = put_buffers (chop (written user b)) false >> pure ret

module _ (env : WriteEnv) (a : Adapter) (w : World) (b : BridgeBuffers)
    (opened : a.outgoing ≡ some b) (sized : length b.wbuf ≡ a.max_buflen)
    (narrow : a.max_buflen < 2 ^ 63) (copied : env.copy_from_user ≡ pos 0) where
  enters :
      (user : List ℕ)
      → length user + 1 < a.max_buflen
      → gf_bridge_write env user a w
        ≡ and_then
            (send_text env (written user b) (length user) (writing a b user) w)
            (settle b user)
  unfolding gf_bridge_write write_buffer
  enters user fits =
      let room : leb ((a.max_buflen + 2 ^ 64 - 1) % 2 ^ 64) (length user) ≡ false = ground arith in
      rw room (rw opened (rw copied refl))

  parses :
      (head body rest : List ℕ) (a' : Adapter)
      → IsPlain head
      → length head + length body + 1 < 2 ^ 63
      → send_text env ((head ++ b':' ∷ body) ++ 0 ∷ rest) (length (head ++ b':' ∷ body)) a' w
        ≡ send_to env (destination env a' head) body (length (head ++ b':' ∷ body)) a' w
  unfolding send_text send_to
  parses head body rest a' plain small =
      let T : List ℕ = head ++ b':' ∷ (body ++ 0 ∷ rest) in
      let same : (head ++ b':' ∷ body) ++ 0 ∷ rest ≡ T =
        append_assoc head (b':' ∷ body) (0 ∷ rest) in
      let left : (length (head ++ b':' ∷ body) + 2 ^ 64 - (length head + 1)) % 2 ^ 64
          ≡ length body =
        omega (arith, length-append head (b':' ∷ body)) in
      let next : length head + 1 ≡ suc (length head) = omega arith in
      rw same (
        rw (strchr-finds head (body ++ 0 ∷ rest) plain, send_text)
          (rw
            (
              left,
              next,
              take-append head (b':' ∷ (body ++ 0 ∷ rest)),
              drop-append head b':' (body ++ 0 ∷ rest),
              take-append body (0 ∷ rest),
            )
            refl))

  -- A written text whose head has neither colon nor NUL, short enough and copied without error into
  -- an open device's buffer, is sent to the destination that the head names, and the message is
  -- exactly the bytes behind the first colon; afterwards the mutex is free and the result is that
  -- of sending.
  pub gf_bridge_write-routes :
      (head body : List ℕ)
      → IsPlain head
      → length head + length body + 2 < a.max_buflen
      → gf_bridge_write env (head ++ b':' ∷ body) a w
        ≡ and_then
            (send_to env
              (destination env (writing a b (head ++ b':' ∷ body)) head)
              body
              (length (head ++ b':' ∷ body))
              (writing a b (head ++ b':' ∷ body))
              w)
            (settle b (head ++ b':' ∷ body))
  gf_bridge_write-routes head body plain fits =
      let user = head ++ b':' ∷ body in
      let n : length user ≡ length head + suc (length body) = length-append head (b':' ∷ body) in
      let t : written user b ≡ user ++ 0 ∷ drop (suc (length user)) b.wbuf =
        terminated user b.wbuf (omega (arith, n, sized)) in
      enters user (omega (arith, n))
      ∙ ap (λ (r : Run ℤ). and_then r (settle b user))
          (ap (λ (s : List ℕ). send_text env s (length user) (writing a b user) w) t
            ∙ parses head body (drop (suc (length user)) b.wbuf) (writing a b user) plain
                (omega arith))

  -- A text without a colon is refused, and nothing is sent: the world is as before, and of the adapter
  -- only the buffer has changed.
  pub gf_bridge_write-no_colon :
      (text : List ℕ)
      → IsPlain text
      → length text + 1 < a.max_buflen
      → gf_bridge_write env text a w
        ≡ done
            (error ebadmsg)
            (record a { outgoing = some (record { wbuf = written text b; wbuf_locked = false }) })
            w
  unfolding send_text chop
  gf_bridge_write-no_colon text plain fits =
      let t : written text b ≡ text ++ 0 ∷ drop (suc (length text)) b.wbuf =
        terminated text b.wbuf (omega (arith, sized)) in
      let none_found : strchr (written text b) b':' ≡ none =
        ap (λ (s : List ℕ). strchr s b':') t
        ∙ strchr-misses text (drop (suc (length text)) b.wbuf) plain in
      enters text fits ∙ (rw (none_found, send_text) (rw (none_found, chop) refl))

conclude-ends :
    (ret : ℤ) (buflen successlen : ℕ)
    → successlen < 2 ^ 31
    → eq_ℤ ret (error erestartsys) ≡ false
    → conclude ret buflen successlen ≢ error erestartsys
unfolding conclude
conclude-ends ret buflen successlen small e =
    let n : int_of_bits successlen ≡ pos successlen = int_of_bits-small successlen small in
    λ h. ground (arith, n)

-- Sending with restarts, each try on a clock that ticks and for a length below 2^31, ends, and
-- never returns -ERESTARTSYS.
pub send_restarting-ends :
    (env : WriteEnv) (left tried : ℕ) (cid sid : ℤ) (buf : List ℕ) (successlen : ℕ) (a : Adapter)
    (w : World)
    → ((k : ℕ) → Ticks (env.try_env k))
    → successlen < 2 ^ 31
    → (ret : ℤ) × (a' : Adapter) × (w' : World) × (send_restarting env left tried cid sid buf
          successlen a w
        ≡ done ret a' w')
      × (ret ≢ error erestartsys)
unfolding send_restarting
send_restarting-ends env zero tried cid sid buf successlen a w ticks small =
    let (ret, a1, w1, e) =
      fee_create_outgoing-total (env.try_env tried) cid sid buf a w (ticks tried) in
    elim (Bool-cases (eq_ℤ ret (error erestartsys))) [
      | inl again ↦ (error etimedout, a1, w1, rw e (rw again refl), (λ h. ground arith))
      | inr last ↦ (
        conclude ret (length buf) successlen,
        a1,
        w1,
        rw e (rw last refl),
        conclude-ends ret (length buf) successlen small last,
      )
    ]
send_restarting-ends env (suc left) tried cid sid buf successlen a w ticks small =
    let (ret, a1, w1, e) =
      fee_create_outgoing-total (env.try_env tried) cid sid buf a w (ticks tried) in
    elim (Bool-cases (eq_ℤ ret (error erestartsys))) [
      | inl again ↦
          let (ret', a', w', run, ok) =
            send_restarting-ends env left (tried + 1) cid sid buf successlen a1 w1 ticks small in
          (ret', a', w', rw e (rw again run), ok)
      | inr last ↦ (
        conclude ret (length buf) successlen,
        a1,
        w1,
        rw e (rw last refl),
        conclude-ends ret (length buf) successlen small last,
      )
    ]

-- ===== src/Exchange/Ordinary.antt =====
-- Texts that are none of the link layer's, whatever stands behind them in the slot.
use emer_gen_z.Base.{
  ℕ, ◌≡◌, refl, ◌≢◌, false, some, List, [], ◌∷◌, ◌++◌, arith, length, take, get_elem?, ◌==◌, ne→==,
  ap,
}
use emer_gen_z.Text.{streq_n}
use emer_gen_z.Text.Format.{sscanf}
use emer_gen_z.Fee.{Mailslot}
use emer_gen_z.Link.{stamp_peer, is_ping, is_peer_attribute, ctl_write_of}
use emer_gen_z.Msix.Deliver.{IsOrdinary}

abbrev pub IsOrdinaryText : List ℕ → Type 0
IsOrdinaryText body =
    (s : Mailslot) (rest : List ℕ)
    → s.buf ≡ body ++ 0 ∷ rest
    → s.buflen ≡ length body
    → IsOrdinary s

-- A text that begins with none of the letters p, L and C is no link message.
pub IsOrdinaryText-first :
    (c : ℕ) (body : List ℕ) → c ≢ b'p' → c ≢ b'L' → c ≢ b'C' → IsOrdinaryText (c ∷ body)
unfolding is_ping is_peer_attribute ctl_write_of streq_n sscanf
IsOrdinaryText-first c body no_p no_l no_c s rest e n =
    let p : (c == b'p') ≡ false = ne→== c b'p' no_p in
    let l : (c == b'L') ≡ false = ne→== c b'L' no_l in
    let k : (b'C' == c) ≡ false = ne→== b'C' c (λ h. no_c (ground arith)) in
    record {
      no_ping = rw e (rw p (ground arith));
      no_attribute = rw e (rw l refl);
      no_write = rw e (rw k refl);
    }

-- An array that holds a text and its NUL.
pub split_at_nul :
    (text ds : List ℕ)
    → take (length text) ds ≡ text
    → get_elem? ds (length text) ≡ some 0
    → (rest : List ℕ) × (ds ≡ text ++ 0 ∷ rest)
split_at_nul [] [] e f = cc
split_at_nul [] (d ∷ ds) e f = (ds, ground arith)
split_at_nul (c ∷ text) [] e f = cc
split_at_nul (c ∷ text) (d ∷ ds) e f =
    let (rest, h) = split_at_nul text ds (ground arith) f in
    let same : d ≡ c = ground arith in (rest, rw same (ap (λ (t : List ℕ). c ∷ t) h))

stamp_peer-IsOrdinary : (s : Mailslot) → IsOrdinary s → IsOrdinary (stamp_peer s)
unfolding stamp_peer is_ping is_peer_attribute ctl_write_of
stamp_peer-IsOrdinary s o = record {
  no_ping = o.no_ping;
  no_attribute = o.no_attribute;
  no_write = o.no_write;
}

-- In a slot with its NUL behind it such a text passes the link layer.
pub IsOrdinaryText-stamped :
    (body : List ℕ) (s : Mailslot)
    → IsOrdinaryText body
    → s.buflen ≡ length body
    → take (length body) s.buf ≡ body
    → get_elem? s.buf (length body) ≡ some 0
    → IsOrdinary (stamp_peer s)
IsOrdinaryText-stamped body s o n payload nul =
    let (rest, e) = split_at_nul body s.buf payload nul in stamp_peer-IsOrdinary s (o s rest e n)

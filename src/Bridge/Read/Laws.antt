-- ===== src/Bridge/Read/Laws.antt =====
-- What a reader gets.
use emer_gen_z.Base.{
  ℕ, zero, suc, ◌+◌, ◌^◌, ◌≤◌, ◌<◌, ◌≡◌, refl, false, none, some, List, [], ◌∷◌, ◌++◌, arith,
  length, length-append, true, take, pos, error, e2big, int_of_bits-small, ◌∙◌, ap,
}
use emer_gen_z.Text.Decimal.{decimal}
use emer_gen_z.Fee.{Mailslot, Adapter, World, update, done}
use emer_gen_z.Incoming.{fee_await_incoming, fee_release_incoming}
use emer_gen_z.Bridge.Read.{
  ReadEnv, ReadResult, sidcid_text, sidcidstr, copy_out, read_slot, gf_bridge_read,
  gf_bridge_read_amid,
}

-- a message waits in slot `p`
module _ (env : ReadEnv) (buflen p : ℕ) (a : Adapter) (w : World)
    (waiting : a.incoming_slot ≡ some p) where
  -- After the read the slot is free again and the reader waits for the next message, also where the
  -- read failed.
  pub gf_bridge_read-releases :
      gf_bridge_read env buflen a w
      ≡ done
          (copy_out env buflen (w.mem p))
          (record a { incoming_slot = none; incoming_slot_locked = false })
          (record w { mem = update w.mem p (record (w.mem p) { buflen = 0 }) })
  unfolding gf_bridge_read gf_bridge_read_amid read_slot fee_await_incoming fee_release_incoming
  gf_bridge_read-releases = ground arith

take-take : (k : ℕ) (t r : List ℕ) → length t ≤ k → take (length t) (take k t ++ r) ≡ t
take-take k [] r h = refl
take-take zero (c ∷ t) r h = absurd (omega arith)
take-take (suc k) (c ∷ t) r h = ap (λ u. c ∷ u) (take-take k t r (omega arith))

prefix_positive : (s : Mailslot) → 0 < length (sidcid_text s)
unfolding sidcid_text
prefix_positive s =
    omega (arith, length-append (decimal s.peer_cid) (b',' ∷ (decimal s.peer_sid ++ b':' ∷ [])))

module _ (env : ReadEnv) (s : Mailslot) where
  -- the length of "CID,SID:"
  abbrev prefix : ℕ
  prefix = length (sidcid_text s)

  copies_all :
      (buflen : ℕ)
      → prefix ≤ 30
      → s.buflen + prefix ≤ buflen + 1
      → buflen + 1 < 2 ^ 31
      → env.first_copy ≡ pos 0
      → env.second_copy ≡ pos 0
      → copy_out env buflen s ≡ record {
        ret = pos (s.buflen + prefix);
        copies = (0, sidcid_text s) ∷ (prefix, take s.buflen s.buf) ∷ [];
        rewinds = true;
      }
  unfolding copy_out sidcidstr
  copies_all buflen short room small first second = ground (
    arith,
    take-take 30 (sidcid_text s) (0 ∷ []) short,
    int_of_bits-small (s.buflen + prefix) (omega arith),
    prefix_positive s,
  )

module _ (env : ReadEnv) (a : Adapter) (w : World) (p : ℕ)
    (waiting : a.incoming_slot ≡ some p) where
  -- what a read leaves: the slot free, and nothing waiting
  abbrev emptied : Adapter
  emptied = record a { incoming_slot = none; incoming_slot_locked = false }

  abbrev cleared : World
  cleared = record w { mem = update w.mem p (record (w.mem p) { buflen = 0 }) }

  -- With a message waiting, ids of at most 30 bytes, room for the ids and the message, and copies that
  -- succeed, a read gives both, one behind the other, returns their length, sets the position of the
  -- file to 0, and frees the slot.
  pub gf_bridge_read-fits :
      (buflen : ℕ)
      → length (sidcid_text (w.mem p)) ≤ 30
      → (w.mem p).buflen + length (sidcid_text (w.mem p)) ≤ buflen
      → buflen + 1 < 2 ^ 31
      → env.first_copy ≡ pos 0
      → env.second_copy ≡ pos 0
      → gf_bridge_read env buflen a w
        ≡ done
            (record {
              ret = pos ((w.mem p).buflen + length (sidcid_text (w.mem p)));
              copies =
                  (0, sidcid_text (w.mem p))
                  ∷ (length (sidcid_text (w.mem p)), take (w.mem p).buflen (w.mem p).buf)
                  ∷ [];
              rewinds = true;
            })
            emptied
            cleared
  gf_bridge_read-fits buflen short room small first second =
      gf_bridge_read-releases env buflen p a w waiting
      ∙ ap (λ (r : ReadResult). done r emptied cleared)
          (copies_all env (w.mem p) buflen short (omega arith) small first second)

  -- With two bytes too few, or fewer, the read is refused and copies nothing, and the message is lost.
  pub gf_bridge_read-refuses :
      (buflen : ℕ)
      → buflen + 1 < (w.mem p).buflen + length (sidcid_text (w.mem p))
      → (w.mem p).buflen + length (sidcid_text (w.mem p)) < 2 ^ 64
      → gf_bridge_read env buflen a w
        ≡ done (record { ret = error e2big; copies = []; rewinds = false }) emptied cleared
  gf_bridge_read-refuses buflen short small =
      gf_bridge_read-releases env buflen p a w waiting
      ∙ ap (λ (r : ReadResult). done r emptied cleared) (unfold copy_out in ground arith)

  -- With a message waiting, ids of at most 30 bytes, copies that succeed and exactly one byte too few,
  -- a read is not refused: it copies one byte more than the caller's buffer has, and returns that
  -- length.
  pub gf_bridge_read-overruns :
      (buflen : ℕ)
      → length (sidcid_text (w.mem p)) ≤ 30
      → (w.mem p).buflen + length (sidcid_text (w.mem p)) ≡ buflen + 1
      → buflen + 1 < 2 ^ 31
      → env.first_copy ≡ pos 0
      → env.second_copy ≡ pos 0
      → (r : ReadResult) × (gf_bridge_read env buflen a w ≡ done r emptied cleared)
        × (r.ret ≡ pos (buflen + 1))
        × (r.copies
            ≡ (0, sidcid_text (w.mem p))
              ∷ (length (sidcid_text (w.mem p)), take (w.mem p).buflen (w.mem p).buf)
              ∷ [])
  gf_bridge_read-overruns buflen short over small first second = (
    record {
      ret = pos ((w.mem p).buflen + length (sidcid_text (w.mem p)));
      copies =
          (0, sidcid_text (w.mem p))
          ∷ (length (sidcid_text (w.mem p)), take (w.mem p).buflen (w.mem p).buf)
          ∷ [];
      rewinds = true;
    },
    gf_bridge_read-releases env buflen p a w waiting
        ∙ ap (λ (r : ReadResult). done r emptied cleared)
            (copies_all env (w.mem p) buflen short (omega arith) small first second),
    ap pos over,
    refl,
  )

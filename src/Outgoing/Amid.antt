-- ===== src/Outgoing/Amid.antt =====
-- An answer of the link layer that an interrupt sends between the test of the own slot and its filling.
use emer_gen_z.Base.{
  ℕ, ◌<◌, ◌≡◌, refl, false, List, ◌∷◌, arith, length, ltb, take, set, take-overwrite,
  length-overwrite, length-set, int_of_bits, ◌∙◌, ap,
}
use emer_gen_z.Fee.{Mailslot, Adapter, World, update, update_self, done, and_then}
use emer_gen_z.Outgoing.{fill_slot, ringer, post_outgoing, post_outgoing_amid}

fill_slot-size :
    (buf : List ℕ) (peer : ℕ) (s : Mailslot) → length (fill_slot buf peer s).buf ≡ length s.buf
unfolding fill_slot
fill_slot-size buf peer s =
    length-overwrite buf (set s.buf (length buf) 0) ∙ length-set s.buf (length buf) 0

fill_slot-payload :
    (buf : List ℕ) (peer : ℕ) (s : Mailslot)
    → length buf < length s.buf
    → take (length buf) (fill_slot buf peer s).buf ≡ buf
unfolding fill_slot
fill_slot-payload buf peer s fits =
    take-overwrite buf (set s.buf (length buf) 0)
      (omega (arith, length-set s.buf (length buf) 0, fits))

-- The own slot is free and has room for the message of a send. Where an interrupt sends an answer
-- of its own after the send has tested the slot and before it fills it, both return their lengths
-- and ring their peers; but the slot then holds the message of the send alone, so that the peer of
-- the answer is rung for a message that is not its own, and the answer is lost.
pub post_outgoing_amid-overwrites :
    (buf answer : List ℕ) (peer other : ℕ) (a : Adapter) (w : World)
    → (w.mem a.my_slot).buflen ≡ 0
    → length buf < length (w.mem a.my_slot).buf
    → (a1 : Adapter) × (w1 : World) × (a2 : Adapter) × (w2 : World) × (post_outgoing answer other a
          w
        ≡ done (int_of_bits (length answer)) a1 w1)
      × (post_outgoing_amid (post_outgoing answer other) buf peer a w
          ≡ done (int_of_bits (length buf)) a2 w2)
      × (a2.doorbell ≡ ringer peer a.my_id ∷ ringer other a.my_id ∷ a.doorbell)
      × ((w2.mem a.my_slot).buflen ≡ length buf)
      × ((w2.mem a.my_slot).last_responder ≡ peer)
      × (take (length buf) (w2.mem a.my_slot).buf ≡ buf)
unfolding post_outgoing post_outgoing_amid
post_outgoing_amid-overwrites buf answer peer other a w free fits =
    let vacant : ltb 0 (w.mem a.my_slot).buflen ≡ false = ap (ltb 0) free in
    let sent : post_outgoing answer other a w ≡ done (int_of_bits (length answer)) a1 w1 =
      rw vacant refl in
    (
      a1,
      w1,
      a2,
      w2,
      sent,
      rw (vacant, and_then) refl,
      refl,
      ap (λ (s : Mailslot). s.buflen) filled ∙ (unfold fill_slot in refl),
      ap (λ (s : Mailslot). s.last_responder) filled ∙ (unfold fill_slot in refl),
      ap (λ (s : Mailslot). take (length buf) s.buf) filled
          ∙ fill_slot-payload buf peer (w1.mem a.my_slot) (omega (arith, room, fits)),
    )
  where
    a1 : Adapter
    a1 = record a { doorbell = ringer other a.my_id ∷ a.doorbell }

    w1 : World
    w1 = record w { mem = update w.mem a.my_slot (fill_slot answer other (w.mem a.my_slot)) }

    a2 : Adapter
    a2 = record a1 { doorbell = ringer peer a.my_id ∷ a1.doorbell }

    w2 : World
    w2 = record w1 { mem = update w1.mem a.my_slot (fill_slot buf peer (w1.mem a.my_slot)) }

    filled : w2.mem a.my_slot ≡ fill_slot buf peer (w1.mem a.my_slot)
    filled = update_self w1.mem a.my_slot (fill_slot buf peer (w1.mem a.my_slot))

    room : length (w1.mem a.my_slot).buf ≡ length (w.mem a.my_slot).buf
    room =
        ap (λ (s : Mailslot). length s.buf)
          (update_self w.mem a.my_slot (fill_slot answer other (w.mem a.my_slot)))
        ∙ fill_slot-size answer other (w.mem a.my_slot)

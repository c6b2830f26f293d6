-- ===== src/Fabric/Refine.antt =====
-- What a fabric promises: a mailbox for each client, that is filled when empty, and emptied.
use emer_gen_z.Base.{
  ℕ, ◌<◌, ◌≡◌, ◌≢◌, inl, inr, none, some, Option, List, [], ◌∷◌, ◌++◌, arith, length, take, ◌==◌,
  if◌then◌else◌, Bool-cases, ==→eq, ◌∙◌, ap, sym,
}
use emer_gen_z.Fee.{Globals, Mailslot}
use emer_gen_z.Mailbox.{calculate_mailslot}
use emer_gen_z.Fabric.{
  Fabric, IsClient, Step, Reach, here, next, Event, sends, empties, idles, event_of, events_of,
}
use emer_gen_z.Fabric.Sound.{IsSound, slots_differ, slot_written, slot_elsewhere, Effect-IsSound}
use emer_gen_z.Fabric.Effects.Steps.{Step-Changes}
use emer_gen_z.Fabric.Effects.{
  Keeps, Fills, Change, stays, fills, stamps, serves_link, reads_slot, Changes,
}

-- a message that nobody has taken yet: whom it is for, and its bytes
abbrev pub Mail : Type 0
Mail = Option (ℕ × List ℕ)

abbrev pub Boxes : Type 0
Boxes = ℕ → Mail

-- What an event does to the mailboxes of clients 1 to `n`, whose slots are where the layout has them.
pub data BoxStep (n : ℕ) (g : Globals) (b c : Boxes) : Event → Type 0 where
  rest : ((i : ℕ) → IsClient n i → c i ≡ b i) → BoxStep n g b c idles
  put :
      (i peer : ℕ) (text : List ℕ)
      → IsClient n i
      → 0 < length text
      → b i ≡ none
      → c i ≡ some (peer, text)
      → ((k : ℕ) → IsClient n k → k ≢ i → c k ≡ b k)
      → BoxStep n g b c (sends i peer text)
  take_out :
      (i p : ℕ)
      → IsClient n i
      → calculate_mailslot g i ≡ some p
      → c i ≡ none
      → ((k : ℕ) → IsClient n k → k ≢ i → c k ≡ b k)
      → BoxStep n g b c (empties p)

pub data BoxRun (n : ℕ) (g : Globals) (b : Boxes) : List Event → Boxes → Type 0 where
  begin : BoxRun n g b [] b
  then_step :
      {c d : Boxes} {es : List Event} {e : Event}
      → BoxRun n g b es c
      → BoxStep n g c d e
      → BoxRun n g b (es ++ e ∷ []) d

-- `buflen` is the handshake: a slot with the length 0 is free.
abbrev pub mail_of : Mailslot → Mail
mail_of s = if s.buflen == 0 then none else some (s.last_responder, take s.buflen s.buf)

abbrev pub boxes : Fabric → Boxes
boxes s i = mail_of (s.mem (s.node i).my_slot)

pub mail_of-Keeps : (old new : Mailslot) → Keeps old new → mail_of new ≡ mail_of old
mail_of-Keeps old new k = λ i. mail (k.buflen_kept i) (k.responder_kept i) (k.buf_kept i)
  where
    mail : ℕ → ℕ → List ℕ → Mail
    mail n peer buf = if n == 0 then none else some (peer, take n buf)

mail_of-free : (s : Mailslot) → s.buflen ≡ 0 → mail_of s ≡ none
mail_of-free s free = ap (λ n. if n == 0 then none else some (s.last_responder, take n s.buf)) free

mail_of-Fills :
    (old new : Mailslot) (peer : ℕ) (text : List ℕ)
    → Fills old new peer text
    → mail_of new ≡ some (peer, text)
mail_of-Fills old new peer text f =
    ap (λ n. if n == 0 then none else some (new.last_responder, take n new.buf)) f.buflen_set
    ∙ ground (arith, f.nonempty, f.responder_set, f.payload)

module _ {n : ℕ} {g : Globals} {s t : Fabric} {e : Event} (ok : IsSound n g s)
    (changes : Changes n s t e) where
  abbrev old_slot : Mailslot
  old_slot = s.mem (s.node changes.owner).my_slot

  owned : boxes t changes.owner ≡ mail_of changes.slot
  owned = ap mail_of (slot_written changes.effect)

  others : (k : ℕ) → IsClient n k → k ≢ changes.owner → boxes t k ≡ boxes s k
  others k c ne =
      ap mail_of (
        slot_elsewhere changes.effect k (slots_differ ok k changes.owner c changes.effect.owner ne))

  unchanged : mail_of changes.slot ≡ boxes s changes.owner → BoxStep n g (boxes s) (boxes t) idles
  unchanged same = rest (λ k c. elim (Bool-cases (k == changes.owner)) [
    | inl this ↦
        ap (boxes t) (==→eq k changes.owner this)
        ∙ (owned ∙ (same ∙ ap (boxes s) (sym (==→eq k changes.owner this))))
    | inr other ↦ others k c (λ e. ground arith)
  ])

  emptied :
      changes.slot.buflen ≡ 0
      → BoxStep n g (boxes s) (boxes t) (empties (s.node changes.owner).my_slot)
  emptied free =
      take_out changes.owner (s.node changes.owner).my_slot changes.effect.owner
        (ok.slot_of changes.owner changes.effect.owner) (owned ∙ mail_of-free changes.slot free)
        others

  Changes-BoxStep : BoxStep n g (boxes s) (boxes t) e
  Changes-BoxStep = go changes.change
    where
      go :
          {e' : Event}
          → Change s t changes.actor changes.owner old_slot changes.slot e'
          → BoxStep n g (boxes s) (boxes t) e'
      go (stays k _ _) = unchanged (mail_of-Keeps old_slot changes.slot k)
      go (stamps k _ _) = unchanged (mail_of-Keeps old_slot changes.slot k)
      go (fills peer text f _) =
          put changes.owner peer text changes.effect.owner f.nonempty
            (mail_of-free old_slot f.was_free)
            (owned ∙ mail_of-Fills old_slot changes.slot peer text f) others
      go (serves_link free _) = emptied free
      go (reads_slot free _ _) = emptied free

-- Every step of a fabric in the server's layout is, with its event, a step of the mailboxes: an accepted
-- message is put whole and addressed into the sender's box where that is empty, and changes nothing where
-- it is not; a read, or the link layer, empties the one box of its slot; an interrupt for a reader leaves
-- all boxes; and the layout stays.
pub Step-refines :
    {n : ℕ} {g : Globals} (s t : Fabric)
    → IsSound n g s
    → (step : Step n s t) → BoxStep n g (boxes s) (boxes t) (event_of step) × IsSound n g t
Step-refines s t ok step =
    (Changes-BoxStep ok (Step-Changes ok step), Effect-IsSound (Step-Changes ok step).effect ok)

-- Every run of a fabric in the server's layout is, event by event, a run of the mailboxes; and the layout
-- stays.
pub Reach-refines :
    {n : ℕ} {g : Globals} (s t : Fabric)
    → IsSound n g s
    → (run : Reach n s t) → BoxRun n g (boxes s) (events_of run) (boxes t) × IsSound n g t
unfolding events_of
Reach-refines s t ok here = (begin, ok)
Reach-refines s t ok (next {t = u} r step) =
    let (run, ok') = Reach-refines s u ok r in
    let (last, ok'') = Step-refines u t ok' step in (then_step run last, ok'')

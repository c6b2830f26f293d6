-- ===== src/Exchange/Amid.antt =====
-- A message that arrives while `gf_bridge_read` copies another one.
use emer_gen_z.Base.{ℕ, ◌≡◌, ◌≢◌, refl, Bool, true, false, none, some, List, ◌∙◌, ap, sym}
use emer_gen_z.Fee.{
  Mailslot, Adapter, World, Run, done, and_then, update, update_self, update_other,
}
use emer_gen_z.Incoming.{fee_await_incoming, fee_release_incoming}
use emer_gen_z.Outgoing.{Env}
use emer_gen_z.Link.{stamp_peer}
use emer_gen_z.Msix.Handler.{all_msix}
use emer_gen_z.Bridge.Read.{ReadEnv, copy_out, read_slot, gf_bridge_read_amid}
use emer_gen_z.Exchange.Receive.{Arrived, told, stamped, freed, relieved, interrupt_run}

amid-run :
    (meanwhile : Adapter → World → Run Bool) (env : ReadEnv) (buflen p q : ℕ) (h : Bool)
    (a a1 : Adapter) (w w1 : World)
    → a.incoming_slot ≡ some p
    → meanwhile a w ≡ done h a1 w1
    → a1.incoming_slot ≡ some q
    → gf_bridge_read_amid meanwhile env buflen a w
      ≡ done
          (copy_out env buflen (w.mem p))
          (record a1 { incoming_slot = none; incoming_slot_locked = false })
          (record w1 { mem = update w1.mem q (record (w1.mem q) { buflen = 0 }) })
unfolding gf_bridge_read_amid read_slot fee_await_incoming fee_release_incoming
amid-run meanwhile env buflen p q h a a1 w w1 waiting run waiting1 =
    rw (waiting, and_then) (rw (run, and_then) (rw (waiting1, and_then) refl))

-- While a client reads the message in slot `p`, the interrupt for a text of another client, which is no
-- text of the link layer, comes between the copies and the release: the reader gets the message of `p`,
-- as far as the copies go, but the slot that is freed is that of the other client, whose message nobody
-- has read; slot `p` stays as it was, nothing waits for the reader, and no slot but that one has changed.
pub gf_bridge_read_amid-frees_other :
    (env : ReadEnv) (irq_env : Env) (buflen p q client vector : ℕ) (body : List ℕ) (a : Adapter)
    (w : World)
    → a.incoming_slot ≡ some p
    → q ≢ p
    → Arrived a w client vector q body
    → (a' : Adapter) × (w' : World) × (gf_bridge_read_amid (all_msix irq_env vector) env buflen a w
        ≡ done (copy_out env buflen (w.mem p)) a' w')
      × (a'.incoming_slot ≡ none)
      × ((w'.mem q).buflen ≡ 0)
      × (w'.mem p ≡ w.mem p)
      × ((k : ℕ) → k ≢ q → w'.mem k ≡ w.mem k)
gf_bridge_read_amid-frees_other env irq_env buflen p q client vector body a w waiting ne mail = (
  relieved a w q,
  freed a w q,
  amid-run (all_msix irq_env vector) env buflen p q true a (told a w q) w (stamped a w q) waiting
      (interrupt_run mail irq_env) refl,
  refl,
  ap (λ (s : Mailslot). s.buflen) (update_self (stamped a w q).mem q freed_slot),
  kept p (λ e. ne (sym e)),
  kept,
)
  where
    freed_slot : Mailslot
    freed_slot = record ((stamped a w q).mem q) { buflen = 0 }

    kept : (k : ℕ) → k ≢ q → (freed a w q).mem k ≡ w.mem k
    kept k other =
        update_other (stamped a w q).mem q k freed_slot other
        ∙ update_other w.mem q k (stamp_peer (w.mem q)) other

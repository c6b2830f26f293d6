-- ===== src/Bridge/File/Laws.antt =====
-- Exclusive opening: at most one user, who has the buffers.
use Prim.Native.Nat.{bit_and}
use emer_gen_z.Base.{
  ℕ, ◌≡◌, refl, ◌≢◌, ◌⊎◌, ◌↔◌, inl, inr, ◌==◌, Bool, true, false, none, some, arith, ℤ, pos, error,
  enomem, ebusy, replicate, Bool-cases, ◌∙◌, sym,
}
use mathlib.Core.Path.{subst}
use emer_gen_z.Fee.{BridgeBuffers, Adapter, World, Run, done, fault, ◌>>◌}
use emer_gen_z.Bridge.File.{gf_bridge_open, gf_bridge_flush, gf_bridge_release, gf_bridge_poll}

-- nobody has the device open
pub record IsClosed (a : Adapter) : Type 0 where
  pub users : a.nr_users ≡ pos 0
  pub no_buffers : a.outgoing ≡ none

-- one user has it open, with the buffers
pub record IsOpen (a : Adapter) : Type 0 where
  pub users : a.nr_users ≡ pos 1
  pub buffers : BridgeBuffers
  pub has_buffers : a.outgoing ≡ some buffers

module _ (a : Adapter) (w : World) where
  -- Opening a closed device with memory at hand gives its one user the buffers.
  pub gf_bridge_open-opens :
      IsClosed a → (a' : Adapter) × (gf_bridge_open true true a w ≡ done (pos 0) a' w) × IsOpen a'
  unfolding gf_bridge_open
  gf_bridge_open-opens c =
      let b : BridgeBuffers = record { wbuf = replicate a.max_buflen 0; wbuf_locked = false } in
      (
        record a { nr_users = pos 1; outgoing = some b },
        ground arith,
        record { users = refl; buffers = b; has_buffers = refl },
      )

  -- Where memory is short the open fails, and the device is as before.
  pub gf_bridge_open-no_memory :
      (m n : Bool)
      → IsClosed a
      → (m ≡ false) ⊎ (n ≡ false)
      → (a' : Adapter) × (gf_bridge_open m n a w ≡ done (error enomem) a' w) × (a' ≡ a)
  unfolding gf_bridge_open
  gf_bridge_open-no_memory m n c short = (record a { nr_users = pos 0 }, ground arith, ground arith)

  -- A second open is refused, and nothing changes for the first user.
  pub gf_bridge_open-busy :
      (m n : Bool)
      → IsOpen a
      → (a' : Adapter) × (gf_bridge_open m n a w ≡ done (error ebusy) a' w) × (a' ≡ a)
  unfolding gf_bridge_open
  gf_bridge_open-busy m n o = (record a { nr_users = pos 1 }, ground arith, ground arith)

  -- The last close of the one user, a flush and a release, closes the device.
  pub close_closes :
      IsOpen a
      → (a' : Adapter) × ((gf_bridge_flush 1 >> gf_bridge_release) a w ≡ done (pos 0) a' w)
        × IsClosed a'
  unfolding gf_bridge_flush gf_bridge_release
  close_closes o = (
    record a { nr_users = pos 0; outgoing = none },
    ground arith,
    record { users = refl; no_buffers = refl },
  )

  -- With the device open, the flush of its last close returns 0 and leaves no user; an open behind it,
  -- with memory at hand, returns 0 and leaves one user, with buffers; and the release of the close then
  -- ends in a fault, where the number of users is not 0 and the buffers are not NULL.
  pub gf_bridge_release-faults :
      IsOpen a
      → (b c : Adapter) × (gf_bridge_flush 1 a w ≡ done (pos 0) b w)
        × (b.nr_users ≡ pos 0)
        × (gf_bridge_open true true b w ≡ done (pos 0) c w)
        × IsOpen c
        × (gf_bridge_release c w ≡ fault)
  unfolding gf_bridge_flush gf_bridge_open gf_bridge_release
  gf_bridge_release-faults o =
      let fresh : BridgeBuffers = record { wbuf = replicate a.max_buflen 0; wbuf_locked = false } in
      (
        record a { nr_users = pos 0 },
        record a { nr_users = pos 1; outgoing = some fresh },
        ground arith,
        refl,
        refl,
        record { users = refl; buffers = fresh; has_buffers = refl },
        refl,
      )

-- What happens to the file of a device, where the two steps of a last close are not interrupted. An
-- open has any outcome of its allocations, and a flush that is not the last has other references.
pub data FileStep (w : World) (a a' : Adapter) : Type 0 where
  opened : (m n : Bool) (ret : ℤ) → gf_bridge_open m n a w ≡ done ret a' w → FileStep w a a'
  flushed :
      (f_count : ℕ)
      → (f_count == 1) ≡ false
      → gf_bridge_flush f_count a w ≡ done (pos 0) a' w
      → FileStep w a a'
  shuts :
      IsOpen a → (gf_bridge_flush 1 >> gf_bridge_release) a w ≡ done (pos 0) a' w → FileStep w a a'

pub data FileSteps (w : World) (a : Adapter) : Adapter → Type 0 where
  start : FileSteps w a a
  then_step : {b c : Adapter} → FileSteps w a b → FileStep w b c → FileSteps w a c

-- The device is closed, or open for one user.
abbrev pub IsConsistent : Adapter → Type 0
IsConsistent a = IsClosed a ⊎ IsOpen a

same_adapter :
    (w : World) {r : Run ℤ} (x y : ℤ) (b c : Adapter) → r ≡ done x b w → r ≡ done y c w → b ≡ c
same_adapter w x y b c e f = ground arith

open-IsConsistent :
    (w : World) (a a' : Adapter) (m n : Bool) (ret : ℤ)
    → gf_bridge_open m n a w ≡ done ret a' w
    → IsConsistent a
    → IsConsistent a'
open-IsConsistent w a a' m n ret e (inr o) =
    let (b, eq, same) = gf_bridge_open-busy a w m n o in
    subst IsConsistent (sym same ∙ same_adapter w (error ebusy) ret b a' eq e) (inr o)
open-IsConsistent w a a' true true ret e (inl c) =
    let (b, eq, o) = gf_bridge_open-opens a w c in
    subst IsConsistent (same_adapter w (pos 0) ret b a' eq e) (inr o)
open-IsConsistent w a a' true false ret e (inl c) =
    let (b, eq, same) = gf_bridge_open-no_memory a w true false c (inr refl) in
    subst IsConsistent (sym same ∙ same_adapter w (error enomem) ret b a' eq e) (inl c)
open-IsConsistent w a a' false n ret e (inl c) =
    let (b, eq, same) = gf_bridge_open-no_memory a w false n c (inl refl) in
    subst IsConsistent (sym same ∙ same_adapter w (error enomem) ret b a' eq e) (inl c)

FileStep-IsConsistent :
    (w : World) (a a' : Adapter) → FileStep w a a' → IsConsistent a → IsConsistent a'
FileStep-IsConsistent w a a' (opened m n ret e) c = open-IsConsistent w a a' m n ret e c
FileStep-IsConsistent w a a' (flushed f more e) c =
    let same : a ≡ a' = unfold gf_bridge_flush in ground arith in subst IsConsistent same c
FileStep-IsConsistent w a a' (shuts o e) c =
    let (b, eq, shut) = close_closes a w o in
    subst IsConsistent (same_adapter w (pos 0) (pos 0) b a' eq e) (inl shut)

-- Through any sequence of opens with any outcome of their allocations, flushes and uninterrupted
-- last closes, a device that starts closed or open for one user stays closed without buffers or
-- open for exactly one user, who has them.
pub FileSteps-IsConsistent :
    (w : World) (a a' : Adapter) → FileSteps w a a' → IsConsistent a → IsConsistent a'
FileSteps-IsConsistent w a _ start c = c
FileSteps-IsConsistent w a _ (then_step {b} {c = d} r s) c =
    FileStep-IsConsistent w b d s (FileSteps-IsConsistent w a b r c)

-- A poll never puts its caller to sleep, and reports room for a write exactly when the own slot is
-- free.
pub gf_bridge_poll-reports :
    (a : Adapter) (w : World)
    → (gf_bridge_poll a w ≢ 0)
      × ((bit_and (gf_bridge_poll a w) 4 ≡ 4) ↔ ((w.mem a.my_slot).buflen ≡ 0))
unfolding gf_bridge_poll
gf_bridge_poll-reports a w = elim (Bool-cases ((w.mem a.my_slot).buflen == 0)) [
  | inl free ↦ rw free ((λ e. absurd (omega arith)), ((λ e. ground arith), (λ e. refl)))
  | inr busy ↦
      rw busy ((λ e. absurd (omega arith)), ((λ e. absurd (omega arith)), (λ e. ground arith)))
]

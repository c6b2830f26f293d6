-- ===== src/Mailbox/Geometry.antt =====
-- No two mailslots overlap, and none leaves the mapped region.
use emer_gen_z.Base.{ℕ, ◌+◌, ◌*◌, ◌%◌, ◌^◌, ◌≤◌, ◌<◌, ◌≡◌, ◌⊎◌, some, arith, ap, ◌∙◌}
use emer_gen_z.Fee.{Globals}
use emer_gen_z.Mailbox.{calculate_mailslot}
use native.Mathlib.Nat.{mod-eq_of_lt}

-- The layout that the server announces: slot 0 for the globals, the clients' slots, and the server's
-- behind them, all inside the address space.
pub record IsLaidOut (g : Globals) : Type 0 where
  pub sized : 0 < g.slotsize
  pub server_last : g.n_clients < g.server_id
  pub in_space : g.base + (g.server_id + 1) * g.slotsize ≤ 2 ^ 64

-- the slots that a message can name
abbrev pub IsSlot : Globals → ℕ → Type 0
IsSlot g i = ((1 ≤ i) × (i ≤ g.n_clients)) ⊎ (i ≡ g.server_id)

slot_guard :
    (g : Globals) (i : ℕ)
    → IsSlot g i
    → calculate_mailslot g i ≡ some ((g.base + i * g.slotsize) % 2 ^ 64)
unfolding calculate_mailslot
slot_guard g i h = ground arith

numbers_in_range :
    (g : Globals) (i p : ℕ)
    → calculate_mailslot g i ≡ some p
    → IsSlot g i × (p ≡ (g.base + i * g.slotsize) % 2 ^ 64)
unfolding calculate_mailslot
numbers_in_range g i p e = ground arith

pub row_below : (i j n : ℕ) → i < j → i * n + n ≤ j * n
row_below i j n h = grind arith

module _ (g : Globals) (laid : IsLaidOut g) where
  slot_le_server : (i : ℕ) → IsSlot g i → (1 ≤ i) × (i ≤ g.server_id)
  slot_le_server i h = (omega (arith, laid.server_last), omega (arith, laid.server_last))

  slot_end : (i : ℕ) → IsSlot g i → i * g.slotsize + g.slotsize ≤ (g.server_id + 1) * g.slotsize
  slot_end i h = row_below i (g.server_id + 1) g.slotsize (omega (arith, slot_le_server i h))

  -- The address does not wrap.
  pub calculate_mailslot-exact :
      (i : ℕ) → IsSlot g i → calculate_mailslot g i ≡ some (g.base + i * g.slotsize)
  calculate_mailslot-exact i h =
      let small : g.base + i * g.slotsize < 2 ^ 64 =
        omega (arith, slot_end i h, laid.in_space, laid.sized) in
      slot_guard g i h ∙ ap some (mod-eq_of_lt small)

  pub exact_address :
      (i p : ℕ) → calculate_mailslot g i ≡ some p → IsSlot g i × (p ≡ g.base + i * g.slotsize)
  exact_address i p e =
      let h = (numbers_in_range g i p e).0 in (h, cc (e, calculate_mailslot-exact i h))

  -- A slot begins behind the globals and ends inside the region.
  pub calculate_mailslot_bounds :
      (i p : ℕ)
      → calculate_mailslot g i ≡ some p
      → (g.base + g.slotsize ≤ p) × (p + g.slotsize ≤ g.base + (g.server_id + 1) * g.slotsize)
  calculate_mailslot_bounds i p e =
      let (h, at) = exact_address i p e in
      (
        omega (arith, at, row_below 0 i g.slotsize (slot_le_server i h).0),
        omega (arith, at, slot_end i h),
      )

  -- In a layout that the server may announce, the slots of a lower and a higher number do not
  -- overlap.
  pub calculate_mailslot_disjoint :
      (i j p q : ℕ)
      → i < j
      → calculate_mailslot g i ≡ some p
      → calculate_mailslot g j ≡ some q
      → p + g.slotsize ≤ q
  calculate_mailslot_disjoint i j p q lt e f =
      omega (arith, (exact_address i p e).1, (exact_address j q f).1, row_below i j g.slotsize lt)

-- ===== src/Adapters/Laws.antt =====
-- What a creation leaves, whether it succeeds or not.
use emer_gen_z.Base.{
  ℕ, zero, suc, ◌+◌, ◌-◌, ◌≡◌, ◌≢◌, refl, ◌⊎◌, inl, inr, ◌==◌, true, false, Option, none, some, leb,
  if-elim, replicate, length, ap, error, einval, ◌<◌, ◌∙◌, sym, ℤ, pos, negsuc, is_neg, nonzero,
  arith, to_u16, ==→eq,
}
use emer_gen_z.Fee.{Mailslot, Adapter, World, update_self, update_other}
use emer_gen_z.Mailbox.{calculate_mailslot}
use emer_gen_z.Bridge.File.Laws.{IsClosed}
use emer_gen_z.Adapters.{
  PciDev, CreateEnv, unmap_bars, map_bars, give_up, Created, created, not_created, buf_offset_of,
  fresh_slot, fresh_adapter, take_slot, check_globals, after_mapping, fee_adapter_create,
}

-- nothing is held for the device
pub record IsBare (p : PciDev) : Type 0 where
  pub no_regions : p.regions ≡ false
  pub no_regs : p.regs_mapped ≡ false
  pub no_globals : p.globals_mapped ≡ false
  pub no_drvdata : p.drvdata ≡ false

-- an adapter that messages can be sent with
pub record IsReady (env : CreateEnv) (w : World) (a : Adapter) (w' : World) : Type 0 where
  pub placed : calculate_mailslot env.globals a.my_id ≡ some a.my_slot
  pub owned : (w.mem a.my_slot).peer_id ≡ a.my_id
  pub owner_kept : (w'.mem a.my_slot).peer_id ≡ a.my_id
  pub free : (w'.mem a.my_slot).buflen ≡ 0
  pub sized : length (w'.mem a.my_slot).buf ≡ a.max_buflen
  pub room : a.max_buflen ≢ 0
  pub closed : IsClosed a
  pub nothing_waits : a.incoming_slot ≡ none
  pub no_core : a.core ≡ none
  pub no_table : a.irq_private ≡ none
  pub announced : a.globals ≡ env.globals
  pub others_kept : (p : ℕ) → p ≢ a.my_slot → w'.mem p ≡ w.mem p

-- Either a ready adapter with its regions, mappings and block, or an error with nothing held beside
-- what was held before; of the regions more may have been released than were held.
abbrev pub IsCreation : CreateEnv → World → PciDev → Created → Type 0
IsCreation env w p (created a w' p') =
    IsReady env w a w'
    × (p' ≡ record p {
      regions = true;
      regs_mapped = true;
      globals_mapped = true;
      drvdata = true;
      blocks = p.blocks + 1;
    })
IsCreation env w p (not_created ret p') = (nonzero ret ≡ true) × IsBare p' × (p'.blocks ≡ p.blocks)

length-replicate : (n : ℕ) → length {A = ℕ} (replicate n 0) ≡ n
length-replicate zero = refl
length-replicate (suc n) = ap suc (length-replicate n)

-- what a failure leaves, whatever was mapped before
give_up-IsCreation :
    (env : CreateEnv) (w : World) (p p' : PciDev) (ret : ℤ)
    → nonzero ret ≡ true
    → p'.blocks ≡ p.blocks + 1
    → IsCreation env w p (not_created ret (give_up 0 p'))
unfolding give_up unmap_bars
give_up-IsCreation env w p p' ret bad one = (
  bad,
  record { no_regions = refl; no_regs = refl; no_globals = refl; no_drvdata = refl },
  omega (arith, one),
)

-- with everything mapped
abbrev mapped : PciDev → PciDev
mapped p = record p {
  regions = true;
  regs_mapped = true;
  globals_mapped = true;
  drvdata = true;
  blocks = p.blocks + 1;
}

module _ (env : CreateEnv) (w : World) (p : PciDev) where
  take_slot-IsCreation :
      (my_id : ℕ) (q : Option ℕ)
      → buf_offset_of ≡ env.globals.buf_offset
      → leb env.globals.slotsize env.globals.buf_offset ≡ false
      → calculate_mailslot env.globals my_id ≡ q
      → IsCreation env w p (take_slot env my_id q w (mapped p))
  unfolding take_slot fresh_adapter fresh_slot
  take_slot-IsCreation my_id none offset room at =
      give_up-IsCreation env w p (mapped p) (error einval) refl refl
  take_slot-IsCreation my_id (some q) offset room at =
      if-elim (IsCreation env w p) (my_id == (w.mem q).peer_id)
        (λ own. (
          record {
            placed = at;
            owned = sym (==→eq my_id (w.mem q).peer_id own);
            owner_kept =
                ap (λ (t : Mailslot). t.peer_id) (update_self w.mem q (fresh_slot env my_id));
            free = ap (λ (t : Mailslot). t.buflen) (update_self w.mem q (fresh_slot env my_id));
            sized =
                ap (λ (t : Mailslot). length t.buf) (update_self w.mem q (fresh_slot env my_id))
                ∙ length-replicate (env.globals.slotsize - buf_offset_of)
                ∙ ap (λ (n : ℕ). env.globals.slotsize - n) offset;
            room = λ e. absurd (
                let lt : env.globals.buf_offset < env.globals.slotsize = ground arith in
                omega (arith, lt, e));
            closed = record { users = refl; no_buffers = refl };
            nothing_waits = refl;
            no_core = refl;
            no_table = refl;
            announced = refl;
            others_kept = λ r other. update_other w.mem q r (fresh_slot env my_id) other;
          },
          refl,
        ))
        (λ foreign. give_up-IsCreation env w p (mapped p) (error einval) refl refl)

  check_globals-IsCreation : IsCreation env w p (check_globals env w (mapped p))
  unfolding check_globals
  check_globals-IsCreation =
      if-elim (IsCreation env w p) (buf_offset_of == env.globals.buf_offset)
        (λ offset.
          if-elim (IsCreation env w p) (leb env.globals.slotsize env.globals.buf_offset)
            (λ small. give_up-IsCreation env w p (mapped p) (error einval) refl refl)
            (λ room. take_slot-IsCreation (to_u16 env.iv_position) _ (==→eq _ _ offset) room refl))
        (λ other. give_up-IsCreation env w p (mapped p) (error einval) refl refl)

  -- The mapping is complete, or an error.
  abbrev IsMapping : ℤ × PciDev → Type 0
  IsMapping x = (x ≡ (pos 0, mapped p)) ⊎ ((nonzero x.0 ≡ true) × (x.1.blocks ≡ p.blocks + 1))

  negative-nonzero : (z : ℤ) → is_neg z ≡ true → nonzero z ≡ true
  negative-nonzero (pos n) h = ground arith
  negative-nonzero (negsuc n) h = refl

  map_bars-IsMapping : IsMapping (map_bars env (record p { drvdata = true; blocks = p.blocks + 1 }))
  unfolding map_bars unmap_bars
  map_bars-IsMapping =
      if-elim IsMapping (is_neg env.request_regions)
        (λ refused. inr (negative-nonzero env.request_regions refused, refl))
        (λ held.
          if-elim IsMapping env.iomap_regs
            (λ regs.
              if-elim IsMapping env.iomap_globals (λ globals. inl refl)
                (λ no_globals. inr (refl, refl)))
            (λ no_regs. inr (refl, refl)))

  after_mapping-IsCreation :
      (x : ℤ × PciDev) → IsMapping x → IsCreation env w p (after_mapping env w x)
  unfolding after_mapping
  after_mapping-IsCreation x (inl good) = rw good check_globals-IsCreation
  after_mapping-IsCreation x (inr (bad, one)) = rw bad (give_up-IsCreation env w p x.1 x.0 bad one)

  -- A creation for a device of which nothing is held either gives an adapter with its regions,
  -- mappings and memory, whose own slot stands where its id says, was marked by the server with
  -- that id, is free and has room for the announced length, with all other slots as before and no
  -- user; or it gives an error with nothing held and no memory lost.
  pub fee_adapter_create-IsCreation : IsBare p → IsCreation env w p (fee_adapter_create env w p)
  unfolding fee_adapter_create
  fee_adapter_create-IsCreation bare =
      if-elim (IsCreation env w p) env.adapter_alloc
        (λ had.
          after_mapping-IsCreation
            (map_bars env (record p { drvdata = true; blocks = p.blocks + 1 })) map_bars-IsMapping)
        (λ none_left. (refl, bare, refl))

-- Where the regions of a device belong to another driver, the creation fails, and releases them on its
-- way out.
pub fee_adapter_create-foreign :
    (env : CreateEnv) (w : World) (p : PciDev) (n : ℕ)
    → IsBare p
    → env.adapter_alloc ≡ true
    → env.request_regions ≡ negsuc n
    → (p' : PciDev) × (fee_adapter_create env w p ≡ not_created (negsuc n) p')
      × (p'.foreign_releases ≡ p.foreign_releases + 1)
unfolding fee_adapter_create after_mapping map_bars give_up unmap_bars
fee_adapter_create-foreign env w p n bare had refused = (
  give_up 0 (record p { drvdata = true; blocks = p.blocks + 1 }),
  rw had (rw refused refl),
  rw bare.no_regions refl,
)

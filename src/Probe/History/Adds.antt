-- ===== src/Probe/History/Adds.antt =====
-- What a probe does to the list of adapters.
use emer_gen_z.Base.{
  ℕ, ◌≡◌, refl, true, false, ◌||◌, ◌==◌, ◌⊎◌, inl, inr, List, [], ◌∷◌, ◌++◌, ℤ, is_neg, nonzero,
  not, Option, none, some, Option-cases, error, ealready, ◌∙◌, ap, sym, if-elim,
}
use emer_gen_z.Fee.{Adapter, Run, done, fault, out_of_fuel}
use emer_gen_z.Msix.Setup.{IrqState, fee_isr_teardown}
use emer_gen_z.Adapters.{Created, created, not_created, fee_adapter_destroy}
use emer_gen_z.Drivers.{update_switch}
use emer_gen_z.Probe.{
  Host, ProbeEnv, Probed, probed, not_probed, probe_fault, disable_and_destroy, tear_down,
  is_listed, forget, finish_probe, asked_result, after_asking, ask_server, list_adapter, set_up,
  with_adapter, fee_init_one,
}
use emer_gen_z.Probe.Walk.{forget-added}

-- the list behind a probe of `place` that failed, from a list `l`: as it was, or with an entry without a
-- device at its end
abbrev pub Added : (place : ℕ) → (l l' : List (Option ℕ)) → Type 0
Added place l l' = (l' ≡ l) ⊎ ((is_listed place l ≡ some false) × (l' ≡ l ++ none ∷ []))

-- A successful probe has added the place.
abbrev pub OnlyAdds : (place : ℕ) → (l : List (Option ℕ)) → Probed → Type 0
OnlyAdds place l (probed a h) = (is_listed place l ≡ some false) × (h.listed ≡ l ++ some place ∷ [])
OnlyAdds place l (not_probed ret h) = Added place l h.listed
OnlyAdds place l probe_fault = Unit {0}

module _ (env : ProbeEnv) (l : List (Option ℕ)) where
  disable-OnlyAdds :
      (ret : ℤ) (a : Adapter) (s : Host)
      → Added env.place l s.listed
      → OnlyAdds env.place l (disable_and_destroy ret a s)
  unfolding disable_and_destroy
  disable-OnlyAdds ret a s added =
      elim (fee_adapter_destroy a s.dev s.heap)
        as (λ x. OnlyAdds env.place l (elim x [
          | none ↦ probe_fault
          | some (dev, heap) ↦ not_probed ret (record s { enabled = false; dev = dev; heap = heap })
        ])) [ none ↦ tt | some (dev, heap) ↦ added ]

  tear_down-OnlyAdds :
      (ret : ℤ) (a : Adapter) (s : Host)
      → Added env.place l s.listed
      → OnlyAdds env.place l (tear_down ret a s)
  unfolding tear_down
  tear_down-OnlyAdds ret a s added =
      elim (fee_isr_teardown a s.irq)
        as (λ x. OnlyAdds env.place l (elim x [
          | none ↦ probe_fault
          | some (a', irq) ↦ disable_and_destroy ret a' (record s { irq = irq })
        ])) [ none ↦ tt | some (a', irq) ↦ disable-OnlyAdds ret a' (record s { irq = irq }) added ]

  finish_probe-OnlyAdds :
      (s : Host) (run : Run ℤ)
      → is_listed env.place l ≡ some false
      → s.listed ≡ l ++ some env.place ∷ []
      → OnlyAdds env.place l (finish_probe s run)
  unfolding finish_probe
  finish_probe-OnlyAdds s (done ret a w) fresh added = (fresh, added)
  finish_probe-OnlyAdds s fault fresh added = tt
  finish_probe-OnlyAdds s out_of_fuel fresh added = tt

  after_asking-OnlyAdds :
      (s : Host) (run : Run ℤ)
      → is_listed env.place l ≡ some false
      → s.listed ≡ l ++ some env.place ∷ []
      → OnlyAdds env.place l (after_asking env s run)
  unfolding after_asking
  after_asking-OnlyAdds s (done ret a w) fresh added =
      if-elim (OnlyAdds env.place l) (nonzero (asked_result ret))
        (λ bad.
          tear_down-OnlyAdds (asked_result ret) a
            (record s { world = w; listed = forget env.place s.listed })
            (inr (fresh, ap (forget env.place) added ∙ forget-added env.place l fresh)))
        (λ good. finish_probe-OnlyAdds s (update_switch env.dump_env a w) fresh added)
  after_asking-OnlyAdds s fault fresh added = tt
  after_asking-OnlyAdds s out_of_fuel fresh added = tt

  list_adapter-OnlyAdds :
      (a : Adapter) (s : Host) → s.listed ≡ l → OnlyAdds env.place l (list_adapter env a s)
  unfolding list_adapter ask_server
  list_adapter-OnlyAdds a s same = elim (Option-cases (is_listed env.place s.listed)) [
    | inl bad ↦ rw (bad, list_adapter) tt
    | inr (there, walk) ↦
        rw (walk, list_adapter)
          (if-elim (OnlyAdds env.place l) there
            (λ old. tear_down-OnlyAdds (error ealready) a s (inl same))
            (λ fresh.
              after_asking-OnlyAdds (record s { listed = s.listed ++ some env.place ∷ [] }) _
                (ap (is_listed env.place) (sym same) ∙ (walk ∙ ap some fresh))
                (ap (λ (es : List (Option ℕ)). es ++ some env.place ∷ []) same)))
  ]

  set_up-OnlyAdds :
      (s : Host) (x : ℤ × Adapter × IrqState) → s.listed ≡ l → OnlyAdds env.place l (set_up env s x)
  unfolding set_up
  set_up-OnlyAdds s (ret, a, irq) same =
      if-elim (OnlyAdds env.place l) (nonzero ret)
        (λ bad. disable-OnlyAdds ret a (record s { irq = irq }) (inl same))
        (λ good. list_adapter-OnlyAdds a (record s { irq = irq }) same)

  with_adapter-OnlyAdds :
      (s : Host) (c : Created) → s.listed ≡ l → OnlyAdds env.place l (with_adapter env s c)
  unfolding with_adapter
  with_adapter-OnlyAdds s (not_created ret p) same = inl same
  with_adapter-OnlyAdds s (created a w p) same = set_up-OnlyAdds _ _ same

pub fee_init_one-OnlyAdds :
    (env : ProbeEnv) (s : Host) → OnlyAdds env.place s.listed (fee_init_one env s)
unfolding fee_init_one
fee_init_one-OnlyAdds env s =
    if-elim (OnlyAdds env.place s.listed) s.dev.drvdata (λ _. inl refl)
      (λ _.
        if-elim (OnlyAdds env.place s.listed) (is_neg env.enable_device) (λ _. inl refl)
          (λ _.
            if-elim (OnlyAdds env.place s.listed)
              (not (env.revision == 1) || (not env.msix_cap || not env.has_bar1)) (λ _. inl refl)
              (λ _. with_adapter-OnlyAdds env s.listed (record s { enabled = true }) _ refl)))

-- ===== src/Probe/History/Stale.antt =====
-- An entry that stays in the list of adapters without its device, which every later walk follows.
use emer_gen_z.Base.{
  ℕ, ◌≡◌, ◌≢◌, refl, ◌==◌, Bool, true, false, inl, inr, Option, none, some, List, [], ◌∷◌, ◌++◌, ℤ,
  true≢false, arith, ◌∙◌, ap, sym, Bool-cases, Option-cases,
}
use mathlib.Core.Path.{subst}
use emer_gen_z.Fee.{Adapter, Run, done, fault, out_of_fuel}
use emer_gen_z.Outgoing.{Env}
use emer_gen_z.Msix.Setup.{fee_isr_teardown}
use emer_gen_z.Probe.{
  Host, ProbeEnv, not_probed, is_listed, unlist, destroy_unlisted, release_adapter, after_dump,
  remove_fault, fee_init_one, fee_remove_one,
}
use emer_gen_z.Probe.Remove.{removal-run}
use emer_gen_z.Probe.History.{
  Cards, host_at, put_host, PciStep, probes, refuses, removes, PciReach, begin, then_step,
}
use emer_gen_z.Probe.History.Adds.{OnlyAdds, fee_init_one-OnlyAdds}
use emer_gen_z.Probe.History.Drops.{Drops, fee_remove_one-Drops}
use emer_gen_z.Probe.History.Laws.{bound-put_host}

-- an entry without a device
unfoldable pub has_null : List (Option ℕ) → Bool
has_null [] = false
has_null (none ∷ es) = true
has_null (some p ∷ es) = has_null es

has_null-added : (es : List (Option ℕ)) → has_null (es ++ none ∷ []) ≡ true
unfolding has_null
has_null-added [] = refl
has_null-added (none ∷ es) = refl
has_null-added (some p ∷ es) = has_null-added es

has_null-is_listed :
    (p : ℕ) (es : List (Option ℕ)) → is_listed p es ≡ some false → has_null es ≡ false
unfolding has_null is_listed
has_null-is_listed p [] walk = refl
has_null-is_listed p (none ∷ es) walk = absurd (ground arith)
has_null-is_listed p (some x ∷ es) walk = elim (Bool-cases (x == p)) [
  | inl here ↦ absurd (let e = rw here at walk in ground (arith, e))
  | inr other ↦ has_null-is_listed p es (rw other at walk)
]

unlist-has_null : (p : ℕ) (es : List (Option ℕ)) → has_null es ≡ true → unlist p es ≡ none
unfolding has_null unlist
unlist-has_null p [] h = absurd (ground arith)
unlist-has_null p (none ∷ es) h = refl
unlist-has_null p (some x ∷ es) h = rw (unlist-has_null p es h) refl

after_dump-has_null :
    (place : ℕ) (s : Host) (run : Run ℤ)
    → has_null s.listed ≡ true
    → after_dump place s run ≡ remove_fault
unfolding after_dump release_adapter
after_dump-has_null place s fault h = refl
after_dump-has_null place s out_of_fuel h = refl
after_dump-has_null place s (done ret a w) h = elim (Option-cases (fee_isr_teardown a s.irq)) [
  | inl bad ↦ rw (bad, release_adapter) refl
  | inr ((a', irq), down) ↦
      rw (down, release_adapter) (rw (unlist-has_null place s.listed h, destroy_unlisted) refl)
]

fee_remove_one-has_null :
    (has_slot : Bool) (place : ℕ) (env : Env) (a : Adapter) (s : Host)
    → has_null s.listed ≡ true
    → s.dev.drvdata ≡ true
    → fee_remove_one has_slot place env a s ≡ remove_fault
unfolding fee_remove_one
fee_remove_one-has_null false place env a s h there = rw there refl
fee_remove_one-has_null true place env a s h there =
    removal-run place env a s there ∙ after_dump-has_null place s _ h

-- from the state `s` on, no further device has been bound, and no device with an adapter can be removed
pub record IsStuck (s t : Cards) : Type 0 where
  pub none_bound : (p : ℕ) → (t.card p).bound ≡ true → (s.card p).bound ≡ true
  pub none_removed :
      (p : ℕ) (has_slot : Bool) (env : Env) (a : Adapter)
      → (t.card p).dev.drvdata ≡ true
      → fee_remove_one has_slot p env a (host_at p t) ≡ remove_fault

IsNulled : (s t : Cards) → Type 0
IsNulled s t =
    (has_null t.listed ≡ true) × ((p : ℕ) → (t.card p).bound ≡ true → (s.card p).bound ≡ true)

put_host-IsNulled :
    (place : ℕ) (h : Host) (s t : Cards)
    → has_null h.listed ≡ true
    → ((p : ℕ) → (t.card p).bound ≡ true → (s.card p).bound ≡ true)
    → IsNulled s (put_host place false h t)
unfolding IsNulled
put_host-IsNulled place h s t null before = (
  null,
  λ p bound. elim (bound-put_host place p false h t) [
    | inl (e, at) ↦ absurd (true≢false (sym bound ∙ at))
    | inr (ne, at) ↦ before p (sym at ∙ bound)
  ],
)

PciStep-IsNulled : (s : Cards) {t u : Cards} → IsNulled s t → PciStep t u → IsNulled s u
unfolding IsNulled
PciStep-IsNulled s {t} (null, before) (probes env a h unbound run same) =
    let adds =
      subst (OnlyAdds env.place t.listed) run (fee_init_one-OnlyAdds env (host_at env.place t)) in
    absurd (true≢false (sym null ∙ has_null-is_listed env.place t.listed adds.0))
PciStep-IsNulled s {t} (null, before) (refuses env ret h unbound run same) =
    let adds =
      subst (OnlyAdds env.place t.listed) run (fee_init_one-OnlyAdds env (host_at env.place t)) in
    subst (IsNulled s) (sym same) (
      put_host-IsNulled env.place h s t
        (elim adds [
          | inl kept ↦ ap has_null kept ∙ null
          | inr (new, added) ↦
              absurd (true≢false (sym null ∙ has_null-is_listed env.place t.listed new))
        ])
        before)
PciStep-IsNulled s {t} (null, before) (removes place env a h has_slot bound run same) =
    let drops =
      subst (Drops place t.listed) run
        (fee_remove_one-Drops has_slot place env a (host_at place t)) in
    subst (IsNulled s) (sym same) (
      put_host-IsNulled place h s t
        (elim drops [
          | inl kept ↦ ap has_null kept ∙ null
          | inr gone ↦
              absurd (let e = sym (unlist-has_null place t.listed null) ∙ gone in ground (arith, e))
        ])
        before)

PciReach-IsNulled : (s t : Cards) → has_null s.listed ≡ true → PciReach s t → IsNulled s t
unfolding IsNulled
PciReach-IsNulled s t null begin = (null, λ p bound. bound)
PciReach-IsNulled s t null (then_step {t = u} reach step) =
    PciStep-IsNulled s (PciReach-IsNulled s u null reach) step

changed-has_null :
    (env : ProbeEnv) (ret : ℤ) (h s : Host)
    → fee_init_one env s ≡ not_probed ret h
    → h.listed ≢ s.listed
    → has_null h.listed ≡ true
changed-has_null env ret h s run changed =
    elim (subst (OnlyAdds env.place s.listed) run (fee_init_one-OnlyAdds env s)) [
      | inl same ↦ absurd (changed same)
      | inr (new, added) ↦ ap has_null added ∙ has_null-added s.listed
    ]

-- Where a probe fails and leaves another list of adapters behind, as when the server could not be asked,
-- then through any later probes and removals that end, no further device is bound, and a removal of a
-- device that has an adapter ends in a fault or does not end.
pub fee_init_one-IsStuck :
    (env : ProbeEnv) (ret : ℤ) (h : Host) (s t : Cards)
    → fee_init_one env (host_at env.place s) ≡ not_probed ret h
    → h.listed ≢ s.listed
    → PciReach (put_host env.place false h s) t
    → IsStuck (put_host env.place false h s) t
unfolding IsNulled
fee_init_one-IsStuck env ret h s t run changed reach =
    let (null, before) =
      PciReach-IsNulled (put_host env.place false h s) t
        (changed-has_null env ret h (host_at env.place s) run changed) reach in
    record {
      none_bound = before;
      none_removed = λ p has_slot env' a there.
          fee_remove_one-has_null has_slot p env' a (host_at p t) null there;
    }

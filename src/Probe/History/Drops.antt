-- ===== src/Probe/History/Drops.antt =====
-- What a removal does to the list of adapters.
use emer_gen_z.Base.{
  ℕ, ◌≡◌, ◌≢◌, refl, Bool, ◌⊎◌, inl, inr, Option, List, ℤ, none, some, Option-cases, if-elim, ap,
  sym,
}
use mathlib.Core.Path.{subst}
use emer_gen_z.Fee.{Adapter, Run, done, fault, out_of_fuel}
use emer_gen_z.Outgoing.{Env}
use emer_gen_z.Msix.Setup.{IrqState, fee_isr_teardown}
use emer_gen_z.Adapters.{fee_adapter_destroy}
use emer_gen_z.Probe.{
  Host, Removed, removed, remove_fault, unlist, destroy_unlisted, release_adapter, after_dump,
  fee_remove_one,
}
use emer_gen_z.Probe.History.Places.{
  IsDistinct, lists, unlist-Unlists, lists-Unlists, Unlists-IsDistinct,
}

-- A removal leaves the list, or takes the place off it.
abbrev pub Drops : (place : ℕ) → (l : List (Option ℕ)) → Removed → Type 0
Drops place l (removed h) = (h.listed ≡ l) ⊎ (unlist place l ≡ some h.listed)
Drops place l remove_fault = Unit {0}

release_adapter-Drops :
    (place : ℕ) (s : Host) (x : Option (Adapter × IrqState))
    → Drops place s.listed (release_adapter place s x)
unfolding release_adapter
release_adapter-Drops place s none = tt
release_adapter-Drops place s (some (a, irq)) = elim (Option-cases (unlist place s.listed)) [
  | inl bad ↦ rw (bad, release_adapter, destroy_unlisted) tt
  | inr (es, walk) ↦ elim (Option-cases (fee_adapter_destroy a s.dev s.heap)) [
    | inl bad ↦ rw (walk, release_adapter) (rw (bad, destroy_unlisted) tt)
    | inr ((dev, heap), gone) ↦ rw (walk, release_adapter) (rw (gone, destroy_unlisted) (inr walk))
  ]
]

after_dump-Drops :
    (place : ℕ) (s : Host) (run : Run ℤ) → Drops place s.listed (after_dump place s run)
unfolding after_dump
after_dump-Drops place s (done ret a w) =
    release_adapter-Drops place (record s { world = w }) (fee_isr_teardown a s.irq)
after_dump-Drops place s fault = tt
after_dump-Drops place s out_of_fuel = tt

pub fee_remove_one-Drops :
    (has_slot : Bool) (place : ℕ) (env : Env) (a : Adapter) (s : Host)
    → Drops place s.listed (fee_remove_one has_slot place env a s)
unfolding fee_remove_one
fee_remove_one-Drops has_slot place env a s =
    if-elim (Drops place s.listed) s.dev.drvdata
      (λ _. if-elim (Drops place s.listed) has_slot (λ _. after_dump-Drops place s _) (λ _. tt))
      (λ _. inl refl)

pub Drops-IsDistinct :
    (place : ℕ) (l : List (Option ℕ)) (h : Host)
    → Drops place l (removed h)
    → IsDistinct l
    → IsDistinct h.listed
Drops-IsDistinct place l h (inl same) d = subst IsDistinct (sym same) d
Drops-IsDistinct place l h (inr gone) d =
    Unlists-IsDistinct place (unlist-Unlists place l h.listed gone) d

pub lists-Drops :
    (p place : ℕ) (l : List (Option ℕ)) (h : Host)
    → p ≢ place
    → Drops place l (removed h)
    → lists p h.listed ≡ lists p l
lists-Drops p place l h ne (inl same) = ap (lists p) same
lists-Drops p place l h ne (inr gone) =
    lists-Unlists p place ne (unlist-Unlists place l h.listed gone)

-- ===== src/Probe/History/Laws.antt =====
-- What holds of the list of adapters over any probes and removals.
use emer_gen_z.Base.{
  ℕ, ◌≡◌, ◌≢◌, refl, Bool, true, false, ◌==◌, ◌⊎◌, inl, inr, arith, ==-refl, ==→eq, ◌∙◌, ap, sym,
  Bool-cases,
}
use mathlib.Core.Path.{subst}
use emer_gen_z.Probe.{Host}
use emer_gen_z.Probe.History.{
  Cards, host_at, put_host, PciStep, PciDriverCore, OnlyCalls, fee_init, fee_exit, probes, refuses,
  removes, PciReach, begin, then_step,
}
use emer_gen_z.Probe.History.Adds.{OnlyAdds, fee_init_one-OnlyAdds}
use emer_gen_z.Probe.History.Places.{
  lists, IsDistinct, lists-Added, lists-added, lists-append_other, Added-IsDistinct,
  added-IsDistinct,
}
use emer_gen_z.Probe.History.Drops.{Drops, fee_remove_one-Drops, Drops-IsDistinct, lists-Drops}

-- No place is listed twice, and that of every device that is bound is listed; the entries of destroyed
-- adapters are at no place.
pub record IsConsistent (s : Cards) : Type 0 where
  pub distinct : IsDistinct s.listed
  pub bound_listed : (p : ℕ) → (s.card p).bound ≡ true → lists p s.listed ≡ true

pub bound_behind :
    (place : ℕ) (b : Bool) (h : Host) (s : Cards) → ((put_host place b h s).card place).bound ≡ b
bound_behind place b h s = rw (==-refl place) refl

pub bound-put_host :
    (place p : ℕ) (b : Bool) (h : Host) (s : Cards)
    → ((p ≡ place) × (((put_host place b h s).card p).bound ≡ b))
      ⊎ ((p ≢ place) × (((put_host place b h s).card p).bound ≡ (s.card p).bound))
bound-put_host place p b h s = elim (Bool-cases (p == place)) [
  | inl same ↦ inl (==→eq p place same, rw same refl)
  | inr other ↦ inr ((λ e. ground (arith, e, other)), rw other refl)
]

put_host-IsConsistent :
    (place : ℕ) (b : Bool) (h : Host) (s : Cards)
    → IsConsistent s
    → IsDistinct h.listed
    → ((p : ℕ) → p ≢ place → lists p s.listed ≡ true → lists p h.listed ≡ true)
    → (b ≡ true → lists place h.listed ≡ true)
    → IsConsistent (put_host place b h s)
put_host-IsConsistent place b h s ok distinct others this = record {
  distinct = distinct;
  bound_listed = λ p bound. elim (bound-put_host place p b h s) [
    | inl (e, at) ↦ subst (λ x. lists x h.listed ≡ true) (sym e) (this (sym at ∙ bound))
    | inr (ne, at) ↦ others p ne (ok.bound_listed p (sym at ∙ bound))
  ];
}

PciStep-IsConsistent : {s t : Cards} → IsConsistent s → PciStep s t → IsConsistent t
PciStep-IsConsistent {s} ok (probes env a h unbound run same) =
    let adds =
      subst (OnlyAdds env.place s.listed) run (fee_init_one-OnlyAdds env (host_at env.place s)) in
    subst IsConsistent (sym same) (
      put_host-IsConsistent env.place true h s ok
        (subst IsDistinct (sym adds.1) (added-IsDistinct env.place s.listed adds.0 ok.distinct))
        (λ p ne there. ap (lists p) adds.1 ∙ lists-append_other p env.place s.listed there)
        (λ _. ap (lists env.place) adds.1 ∙ lists-added env.place s.listed))
PciStep-IsConsistent {s} ok (refuses env ret h unbound run same) =
    let adds =
      subst (OnlyAdds env.place s.listed) run (fee_init_one-OnlyAdds env (host_at env.place s)) in
    subst IsConsistent (sym same) (
      put_host-IsConsistent env.place false h s ok
        (Added-IsDistinct env.place s.listed h.listed adds ok.distinct)
        (λ p ne there. lists-Added p env.place s.listed h.listed adds ∙ there)
        (λ e. absurd (ground arith)))
PciStep-IsConsistent {s} ok (removes place env a h has_slot bound run same) =
    let drops =
      subst (Drops place s.listed) run
        (fee_remove_one-Drops has_slot place env a (host_at place s)) in
    subst IsConsistent (sym same) (
      put_host-IsConsistent place false h s ok (Drops-IsDistinct place s.listed h drops ok.distinct)
        (λ p ne there. lists-Drops p place s.listed h ne drops ∙ there)
        (λ e. absurd (ground arith)))

-- Through any probes and removals, with any outcome, and whatever the drivers do to the adapters in
-- between: if no place is listed twice and that of every bound device is listed, so it stays.
pub PciReach-IsConsistent : (s t : Cards) → IsConsistent s → PciReach s t → IsConsistent t
PciReach-IsConsistent s t ok begin = ok
PciReach-IsConsistent s t ok (then_step {t = u} run step) =
    PciStep-IsConsistent (PciReach-IsConsistent s u ok run) step

-- If the PCI core changes what the driver keeps by its callbacks only, the start and the end of the
-- module, with any probes and removals in between, keep that no place is listed twice and that of every
-- bound device is listed.
pub fee_exit-IsConsistent :
    (core : PciDriverCore) (s t : Cards)
    → OnlyCalls core
    → IsConsistent s
    → PciReach (fee_init core s).1 t
    → IsConsistent (fee_exit core t)
unfolding fee_init fee_exit
fee_exit-IsConsistent core s t calls ok run =
    PciReach-IsConsistent t (core.unregister t)
      (PciReach-IsConsistent (core.register s).1 t
        (PciReach-IsConsistent s (core.register s).1 ok (calls.registering s)) run)
      (calls.unregistering t)

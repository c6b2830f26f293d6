-- ===== src/Subsystem/Device/Core/Laws.antt =====
-- Core structures come and go without a leak, and only once.
use emer_gen_z.Base.{
  ℕ, ◌≡◌, ◌≢◌, refl, ◌==◌, true, false, none, some, error, enomem, arith, Bool-cases, Option-cases,
  inl, inr, ==→eq, ◌∙◌, ap, sym,
}
use emer_gen_z.Fee.{update_self, Core, update}
use emer_gen_z.Subsystem.Device.Core.{
  CoreHeap, valid, err_ptr, zeroed_core, is_bridge, put_core, put_table,
  genz_core_structure_destroy, undo_core, genz_core_structure_create,
}

-- the same blocks are there
abbrev pub SameHeap : CoreHeap → CoreHeap → Type 0
SameHeap h h' = ((p : ℕ) → h.cores p ≡ h'.cores p) × ((p : ℕ) → h.tables p ≡ h'.tables p)

-- what was written to a free place and cleared again
update-undone {ℓ} :
    {A : Type ℓ} (f : ℕ → A) (p : ℕ) (x y : A)
    → f p ≡ y
    → (q : ℕ) → update (update f p x) p y q ≡ f q
update-undone f p x y e q = elim (Bool-cases (q == p)) [
  | inl same ↦ rw same (sym e ∙ ap f (sym (==→eq q p same)))
  | inr other ↦ rw other refl
]

module _ (h : CoreHeap) (p : ℕ) where
  destroy-gone : h.cores p ≡ none → genz_core_structure_destroy (some p) h ≡ none
  unfolding genz_core_structure_destroy
  destroy-gone e = rw (e, genz_core_structure_destroy) refl

  destroy-table :
      (c : Core)
      → h.cores p ≡ some c
      → (c.comp_dest_table == 0) ≡ false
      → genz_core_structure_destroy (some p) h
        ≡ some (put_core p none (put_table c.comp_dest_table false h))
  unfolding genz_core_structure_destroy
  destroy-table c e n = rw (e, genz_core_structure_destroy) (rw n refl)

  destroy-bare :
      (c : Core)
      → h.cores p ≡ some c
      → (c.comp_dest_table == 0) ≡ true
      → genz_core_structure_destroy (some p) h ≡ some (put_core p none h)
  unfolding genz_core_structure_destroy
  destroy-bare c e n = rw (e, genz_core_structure_destroy) (rw n refl)

module _ (cce : ℕ) (h : CoreHeap) (p : ℕ) (free : h.cores p ≡ none) where
  -- For the class of a bridge and fresh memory, a core structure is made, and destroying it leaves
  -- the heap as it was.
  pub genz_core_structure_destroy-undoes :
      (t : ℕ)
      → is_bridge cce ≡ true
      → t ≢ 0
      → h.tables t ≡ false
      → (h1 h2 : CoreHeap) × (genz_core_structure_create (some p) (some t) cce h
          ≡ some (valid p, h1))
        × (genz_core_structure_destroy (some p) h1 ≡ some h2)
        × SameHeap h2 h
  unfolding genz_core_structure_create
  genz_core_structure_destroy-undoes t bridge nonnull unused =
      let c : Core = record zeroed_core { cce = cce; comp_dest_table = t } in
      let h1 : CoreHeap = put_core p (some c) (put_table t true h) in
      let there : h1.cores p ≡ some c = ground arith in
      let n : (t == 0) ≡ false = ground arith in
      (
        h1,
        put_core p none (put_table t false h1),
        rw bridge refl,
        destroy-table h1 p c there n,
        (update-undone h.cores p (some c) none free, update-undone h.tables t true false unused),
      )

  -- Where the table cannot be made, the call fails and the structure is given back.
  pub genz_core_structure_create-no_table :
      is_bridge cce ≡ true
      → (h' : CoreHeap) × (genz_core_structure_create (some p) none cce h
          ≡ some (err_ptr (error enomem), h'))
        × SameHeap h' h
  unfolding genz_core_structure_create
  genz_core_structure_create-no_table bridge =
      let c : Core = record zeroed_core { cce = cce } in
      let h1 : CoreHeap = put_core p (some c) h in
      let there : h1.cores p ≡ some c = ground arith in
      (
        put_core p none h1,
        rw bridge (rw (destroy-bare h1 p c there refl, undo_core) refl),
        (update-undone h.cores p (some c) none free, λ q. refl),
      )

none≢some : {h : CoreHeap} → none ≢ some h
none≢some e = ground arith

cleared : (h h' : CoreHeap) (p : ℕ) → some h ≡ some h' → h.cores p ≡ none → h'.cores p ≡ none
cleared h h' p e f = ground arith

-- Two owners of one structure cannot both destroy it.
pub genz_core_structure_destroy-twice :
    (h h' : CoreHeap) (p : ℕ)
    → genz_core_structure_destroy (some p) h ≡ some h'
    → genz_core_structure_destroy (some p) h' ≡ none
genz_core_structure_destroy-twice h h' p e = destroy-gone h' p (elim (Option-cases (h.cores p)) [
  | inl gone ↦ absurd (none≢some (sym (destroy-gone h p gone) ∙ e))
  | inr (c, there) ↦ elim (Bool-cases (c.comp_dest_table == 0)) [
    | inl bare ↦
        cleared (put_core p none h) h' p (sym (destroy-bare h p c there bare) ∙ e)
          (update_self h.cores p none)
    | inr table ↦
        cleared (put_core p none (put_table c.comp_dest_table false h)) h' p
          (sym (destroy-table h p c there table) ∙ e) (update_self h.cores p none)
  ]
])

-- ===== src/Subsystem/Class/Laws.antt =====
-- Which classes there are, and which of them the kernel knows.
use emer_gen_z.Base.{
  true≢false, ℕ, ◌≤◌, ◌≡◌, refl, ◌⊎◌, inl, inr, ◌↔◌, true, some, ◌∷◌, ℤ, pos, nonzero, arith,
  Bool-cases, ◌∙◌, ap, sym,
}
use emer_gen_z.Subsystem.Class.{
  maxindex, genz_cce_lph, genz_class_getter, Classes, class_unregister, register_classes,
  genz_classes_init, destroy_classes, genz_classes_destroy, unregister_below,
}

-- The getter knows the encodings 1 to 0x17 of the header and no others, and answers with the class of
-- that encoding.
pub genz_class_getter-encodings :
    (index c : ℕ)
    → (genz_class_getter index ≡ some c) ↔ ((1 ≤ index) × (index ≤ genz_cce_lph) × (c ≡ index))
unfolding genz_class_getter maxindex
genz_class_getter-encodings index c = ((λ h. ground arith), (λ h. ground arith))

-- Starting registers the fabric class and no other, or fails and leaves the classes as they were.
pub genz_classes_init-all_or_nothing :
    (register : ℕ → ℤ) (cs : Classes)
    → (genz_classes_init register cs ≡ (pos 0, 0 ∷ cs))
      ⊎ ((nonzero (register 0) ≡ true) × (genz_classes_init register cs ≡ (register 0, cs)))
unfolding genz_classes_init register_classes unregister_below
genz_classes_init-all_or_nothing register cs = elim (Bool-cases (nonzero (register 0))) [
  | inl failed ↦ inr (failed, rw failed refl)
  | inr worked ↦ inl (rw worked refl)
]

-- Destroying undoes a start that succeeded.
pub genz_classes_destroy-undoes :
    (register : ℕ → ℤ) (cs cs' : Classes)
    → genz_classes_init register cs ≡ (pos 0, cs')
    → genz_classes_destroy cs' ≡ cs
unfolding genz_classes_destroy destroy_classes class_unregister genz_classes_init register_classes
    unregister_below
genz_classes_destroy-undoes register cs cs' e = elim (Bool-cases (nonzero (register 0))) [
  | inl failed ↦
      let e' = rw failed at e in
      let z : register 0 ≡ pos 0 = ap (λ (p : ℤ × Classes). p.0) e' in
      absurd (true≢false (sym failed ∙ ap nonzero z))
  | inr worked ↦
      let e' = rw worked at e in
      let z : 0 ∷ cs ≡ cs' = ap (λ (p : ℤ × Classes). p.1) e' in ap (class_unregister 0) (sym z)
]

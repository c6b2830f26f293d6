-- ===== src/Subsystem/Device/Register/History.antt =====
-- Histories of registrations: no two devices get the same minor number.
use emer_gen_z.Base.{
  true≢false, ℕ, ◌<◌, ◌≡◌, ◌≢◌, refl, Bool, true, false, some, List, [], ◌∷◌, ℤ, All, ==-refl, ◌∙◌,
  ap, sym,
}
use mathlib.Core.Path.{subst}
use emer_gen_z.Fee.{Core}
use emer_gen_z.Subsystem.Device.Chrdev.{Chrdev, Registry, genz_unregister_char_device}
use emer_gen_z.Subsystem.Device.Register.{
  RegisterEnv, registered, refused, genz_register_char_device,
}
use emer_gen_z.Subsystem.Device.Register.Minors.{
  stays, Numbered, unregister-bitmap, genz_register_char_device-Numbered,
  genz_register_char_device-minor,
}

-- A history of registrations and unregistrations; the list has the devices that were ever registered,
-- the latest first.
pub data History : List Chrdev → Registry → Type 0 where
  start : (r : Registry) → History [] r
  succeeded :
      {ds : List Chrdev} {r : Registry} (env : RegisterEnv) (core : Core) (file_private_data : ℕ)
      (slot : ℤ) (d : Chrdev) (r' : Registry)
      → History ds r
      → genz_register_char_device env core file_private_data slot r ≡ registered d r'
      → History (d ∷ ds) r'
  failed :
      {ds : List Chrdev} {r : Registry} (env : RegisterEnv) (core : Core) (file_private_data : ℕ)
      (slot : ℤ) (ret : ℤ) (r' : Registry)
      → History ds r
      → genz_register_char_device env core file_private_data slot r ≡ refused ret r'
      → History ds r'
  unregistered :
      {ds : List Chrdev} {r : Registry} (max_interface : ℕ) (d : Chrdev) (r' : Registry)
      → History ds r
      → genz_unregister_char_device max_interface d r ≡ some r'
      → History ds r'

-- the devices have numbers in use, each another one
abbrev pub AreNumbered : List Chrdev → Registry → Type 0
AreNumbered [] r = Unit
AreNumbered (d ∷ ds) r =
    (d.minor < 14)
    × (r.bridge_minor_bitmap d.minor ≡ true)
    × All (λ (d' : Chrdev). d'.minor ≢ d.minor) ds
    × AreNumbered ds r

AreNumbered-mono :
    (ds : List Chrdev) (r r' : Registry)
    → ((m : ℕ) → r.bridge_minor_bitmap m ≡ true → r'.bridge_minor_bitmap m ≡ true)
    → AreNumbered ds r
    → AreNumbered ds r'
AreNumbered-mono [] r r' h n = tt
AreNumbered-mono (d ∷ ds) r r' h n = (n.0, h d.minor n.1, n.2, AreNumbered-mono ds r r' h n.3)

-- a number that is free is none of theirs
AreNumbered-free :
    (ds : List Chrdev) (r : Registry) (m : ℕ)
    → r.bridge_minor_bitmap m ≡ false
    → AreNumbered ds r
    → All (λ (d' : Chrdev). d'.minor ≢ m) ds
AreNumbered-free [] r m free n = tt
AreNumbered-free (d ∷ ds) r m free n = (
  (λ e. true≢false (sym n.1 ∙ ap r.bridge_minor_bitmap e ∙ free)),
  AreNumbered-free ds r m free n.3,
)

-- Over any history of registrations, failed ones included, and unregistrations, the registered
-- devices have minor numbers below 14, no two the same, and every number given out stays marked as
-- used.
pub History-AreNumbered : (ds : List Chrdev) (r : Registry) → History ds r → AreNumbered ds r
History-AreNumbered _ r (start _) = tt
History-AreNumbered _ _ (succeeded {ds} {r} env core p slot d r' h e) =
    let n = History-AreNumbered ds r h in
    let (small, clear, set_) = genz_register_char_device-minor env core p slot r d r' e in
    (
      small,
      ap (λ (f : ℕ → Bool). f d.minor) set_ ∙ rw (==-refl d.minor) refl,
      AreNumbered-free ds r d.minor clear n,
      AreNumbered-mono ds r r'
          (λ m used. ap (λ (f : ℕ → Bool). f m) set_ ∙ stays r.bridge_minor_bitmap d.minor m used)
          n,
    )
History-AreNumbered _ _ (failed {ds} {r} env core p slot ret r' h e) =
    AreNumbered-mono ds r r'
      (subst (Numbered r) e (genz_register_char_device-Numbered env core p slot r))
      (History-AreNumbered ds r h)
History-AreNumbered _ _ (unregistered {ds} {r} n d r' h e) =
    AreNumbered-mono ds r r'
      (λ m used. ap (λ (f : ℕ → Bool). f m) (unregister-bitmap n d r r' e) ∙ used)
      (History-AreNumbered ds r h)

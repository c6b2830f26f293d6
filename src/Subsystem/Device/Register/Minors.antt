-- ===== src/Subsystem/Device/Register/Minors.antt =====
-- Device numbers: a registration takes a minor number that is free.
use emer_gen_z.Base.{
  ℕ, zero, suc, ◌+◌, ◌<◌, ◌≡◌, refl, inl, inr, ◌==◌, Bool, true, false, ◌||◌, some, ltb, ℤ, arith,
  Bool-cases, if-elim, Option-cases, ◌∙◌, ap, sym,
}
use mathlib.Core.Path.{subst}
use emer_gen_z.Fee.{Core, update}
use emer_gen_z.Subsystem.Device.Core.{is_bridge}
use emer_gen_z.Subsystem.Device.Chrdev.{
  Chrdev, Registry, genz_unregister_char_device, remove_interfaces,
}
use emer_gen_z.Subsystem.Device.Register.{
  RegisterEnv, Registered, registered, refused, crashed, genz_minorbits, alloc_names, Step, next,
  up_and_out, then_do, find_parent, fill_in, add_cdev, create_device, create_core_file,
  create_interfaces, locked_steps, finish, alloc_and_register, genz_register_char_device, kzalloc,
  zeroed_chrdev,
}
use emer_gen_z.Subsystem.Device.Register.Steps.{
  Keeps, then_do-Keeps, find_parent-Keeps, add_cdev-Keeps, create_device-Keeps,
  create_core_file-Keeps, create_interfaces-Keeps, claimed, exhausted, claim_minor-Claim,
}

pub stays : (f : ℕ → Bool) (m k : ℕ) → f k ≡ true → update f m true k ≡ true
stays f m k e = elim (Bool-cases (k == m)) [ inl same ↦ rw same refl | inr other ↦ rw other e ]

-- the steps behind `claim_minor`
rest_steps : RegisterEnv → Core → (file_private_data : ℕ) → (slot : ℤ) → Step → Step
rest_steps env core file_private_data slot s =
    let step = then_do s (find_parent env slot) in
    let step = then_do step (fill_in core.cce file_private_data slot) in
    let step = then_do step (add_cdev env) in
    let step = then_do step (create_device env) in
    let step = then_do step (create_core_file env) in
    then_do step (create_interfaces env core.max_interface)

module _ (env : RegisterEnv) (core : Core) (file_private_data : ℕ) (slot : ℤ) where
  rest_steps-Keeps :
      (m : ℕ) (b : ℕ → Bool) (s : Step)
      → Keeps m b s
      → Keeps m b (rest_steps env core file_private_data slot s)
  unfolding rest_steps
  rest_steps-Keeps m b s h0 =
      let h1 =
        then_do-Keeps m b s (find_parent env slot) h0
          (λ d r e k. find_parent-Keeps m b env d r e k slot) in
      let s1 = then_do s (find_parent env slot) in
      let h2 =
        then_do-Keeps m b s1 (fill_in core.cce file_private_data slot) h1
          (λ d r e k. unfold fill_in in (e, k)) in
      let s2 = then_do s1 (fill_in core.cce file_private_data slot) in
      let h3 = then_do-Keeps m b s2 (add_cdev env) h2 (add_cdev-Keeps m b env) in
      let s3 = then_do s2 (add_cdev env) in
      let h4 = then_do-Keeps m b s3 (create_device env) h3 (create_device-Keeps m b env) in
      let s4 = then_do s3 (create_device env) in
      let h5 = then_do-Keeps m b s4 (create_core_file env) h4 (create_core_file-Keeps m b env) in
      then_do-Keeps m b (then_do s4 (create_core_file env))
        (create_interfaces env core.max_interface) h5
        (λ d r. create_interfaces-Keeps m b env core.max_interface d r)

  -- what all steps together do to the bitmap
  data Outcome (r : Registry) (s : Step) : Type 0 where
    won :
        (d : Chrdev) (r' : Registry)
        → d.minor < genz_minorbits
        → r.bridge_minor_bitmap d.minor ≡ false
        → r'.bridge_minor_bitmap ≡ update r.bridge_minor_bitmap d.minor true
        → s ≡ next d r'
        → Outcome r s
    lost :
        (ret : ℤ) (d : Chrdev) (r' : Registry)
        → ((m : ℕ) → r.bridge_minor_bitmap m ≡ true → r'.bridge_minor_bitmap m ≡ true)
        → s ≡ up_and_out ret d r'
        → Outcome r s

  outcome-of :
      (m : ℕ) (r : Registry) (s : Step)
      → m < genz_minorbits
      → r.bridge_minor_bitmap m ≡ false
      → Keeps m (update r.bridge_minor_bitmap m true) s
      → Outcome r s
  outcome-of m r (next d r') small clear h =
      won d r' (subst (λ (k : ℕ). k < genz_minorbits) (sym h.0) small)
        (ap r.bridge_minor_bitmap h.0 ∙ clear)
        (h.1 ∙ ap (λ (k : ℕ). update r.bridge_minor_bitmap k true) (sym h.0)) refl
  outcome-of m r (up_and_out ret d r') small clear h =
      lost ret d r' (λ k used. ap (λ (f : ℕ → Bool). f k) h ∙ stays r.bridge_minor_bitmap m k used)
        refl

  locked_steps-Outcome :
      (d : Chrdev) (r : Registry) → Outcome r (locked_steps env core file_private_data slot d r)
  unfolding locked_steps rest_steps
  locked_steps-Outcome d r = elim (claim_minor-Claim env d r) [
    | claimed d' r' small clear set_ e ↦ rw e (
        outcome-of d'.minor r (rest_steps env core file_private_data slot (next d' r')) small clear
          (rest_steps-Keeps d'.minor (update r.bridge_minor_bitmap d'.minor true) (next d' r')
            (refl, set_)))
    | exhausted ret d' r' same e ↦
        rw e (lost ret d' r' (λ m u. ap (λ (f : ℕ → Bool). f m) same ∙ u) refl)
  ]

-- What a registration does to the minor numbers: the new device has one that was free, and where it
-- fails the numbers that are in use stay in use.
abbrev pub Numbered : Registry → Registered → Type 0
Numbered r (registered d r') =
    (d.minor < genz_minorbits)
    × (r.bridge_minor_bitmap d.minor ≡ false)
    × (r'.bridge_minor_bitmap ≡ update r.bridge_minor_bitmap d.minor true)
Numbered r (refused ret r') =
    (m : ℕ) → r.bridge_minor_bitmap m ≡ true → r'.bridge_minor_bitmap m ≡ true
Numbered r crashed = Unit

alloc_names-bitmap :
    (f : ℕ → Bool) (left i : ℕ) (r : Registry)
    → (alloc_names f left i r).1.bridge_minor_bitmap ≡ r.bridge_minor_bitmap
unfolding alloc_names
alloc_names-bitmap f zero i r = refl
alloc_names-bitmap f (suc left) i r = elim (Bool-cases (f i)) [
  | inl had ↦ rw had (alloc_names-bitmap f left (i + 1) (kzalloc r))
  | inr failed ↦ rw failed refl
]

pub unregister-bitmap :
    (n : ℕ) (d : Chrdev) (r r' : Registry)
    → genz_unregister_char_device n d r ≡ some r'
    → r'.bridge_minor_bitmap ≡ r.bridge_minor_bitmap
unfolding genz_unregister_char_device remove_interfaces
unregister-bitmap n d r r' e = ground arith

finish-Numbered :
    (n : ℕ) (r r1 : Registry) (s : Step)
    → r1.bridge_minor_bitmap ≡ r.bridge_minor_bitmap
    → (env : RegisterEnv) (core : Core) (p : ℕ) (slot : ℤ) → Outcome env core p slot r1 s
    → Numbered r (finish n s)
finish-Numbered n r r1 s same env core p slot (won d r' small clear set_ e) = rw e (
  small,
  ap (λ (f : ℕ → Bool). f d.minor) (sym same) ∙ clear,
  set_ ∙ ap (λ (f : ℕ → Bool). update f d.minor true) same,
)
finish-Numbered n r r1 s same env core p slot (lost ret d r' kept e) =
    rw e (elim (Option-cases (genz_unregister_char_device n d r')) [
      | inl crash ↦
          let q : finish n (up_and_out ret d r') ≡ crashed = rw (crash, finish) refl in
          subst (Numbered r) (sym q) tt
      | inr (r2, freed) ↦
          let q : finish n (up_and_out ret d r') ≡ refused ret r2 = rw (freed, finish) refl in
          subst (Numbered r) (sym q) (λ m used.
            ap (λ (f : ℕ → Bool). f m) (unregister-bitmap n d r' r2 freed)
            ∙ kept m (ap (λ (f : ℕ → Bool). f m) same ∙ used))
    ])

alloc_and_register-Numbered :
    (env : RegisterEnv) (core : Core) (file_private_data : ℕ) (slot : ℤ) (r : Registry)
    → Numbered r (alloc_and_register env core file_private_data slot r)
unfolding alloc_and_register
alloc_and_register-Numbered env core p slot r =
    let named = alloc_names env.name_alloc core.max_interface 0 (kzalloc (kzalloc r)) in
    let same : named.1.bridge_minor_bitmap ≡ r.bridge_minor_bitmap =
      alloc_names-bitmap env.name_alloc core.max_interface 0 (kzalloc (kzalloc r)) in
    if-elim (Numbered r) env.chrdev_alloc
      (λ chrdev.
        if-elim (Numbered r) env.iface_attrs_alloc
          (λ attrs.
            if-elim (Numbered r) named.0
              (λ names.
                finish-Numbered core.max_interface r named.1
                  (locked_steps env core p slot zeroed_chrdev named.1) same env core p slot
                  (locked_steps-Outcome env core p slot zeroed_chrdev named.1))
              (λ no_names m used. ap (λ (f : ℕ → Bool). f m) same ∙ used))
          (λ no_attrs m used. used))
      (λ no_chrdev m used. used)

pub genz_register_char_device-Numbered :
    (env : RegisterEnv) (core : Core) (file_private_data : ℕ) (slot : ℤ) (r : Registry)
    → Numbered r (genz_register_char_device env core file_private_data slot r)
unfolding genz_register_char_device
genz_register_char_device-Numbered env core p slot r =
    if-elim (Numbered r) (is_bridge core.cce)
      (λ bridge.
        if-elim (Numbered r) ((core.max_interface == 0) || ltb 1024 core.max_interface)
          (λ bad m used. used)
          (λ good.
            if-elim (Numbered r) (ltb core.max_ctl 8192) (λ small m used. used)
              (λ large. alloc_and_register-Numbered env core p slot r)))
      (λ other m used. used)

-- A registration that succeeds gives its device a minor number below 14 that was free, and sets its bit
-- and no other.
pub genz_register_char_device-minor :
    (env : RegisterEnv) (core : Core) (file_private_data : ℕ) (slot : ℤ) (r : Registry) (d : Chrdev)
    (r' : Registry)
    → genz_register_char_device env core file_private_data slot r ≡ registered d r'
    → (d.minor < 14)
      × (r.bridge_minor_bitmap d.minor ≡ false)
      × (r'.bridge_minor_bitmap ≡ update r.bridge_minor_bitmap d.minor true)
genz_register_char_device-minor env core p slot r d r' e =
    subst (Numbered r) e (genz_register_char_device-Numbered env core p slot r)

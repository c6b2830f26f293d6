-- ===== src/Drivers/Laws.antt =====
-- Which adapters a driver is bound to, and what becomes of them.
use emer_gen_z.Base.{
  ℕ, suc, ◌+◌, ◌≢◌, ◌≡◌, refl, ◌⊎◌, inl, inr, true, false, Option, none, some, List, [], ◌∷◌, arith,
  ℤ, pos, negsuc, is_neg, Bool-cases, if-elim, Option-cases, ◌∙◌, ap, sym,
}
use mathlib.Core.Path.{subst}
use emer_gen_z.Fee.{Core, Adapter, World, Run, done, fault, out_of_fuel}
use emer_gen_z.Outgoing.{Env}
use emer_gen_z.Outgoing.Frame.{fee_create_outgoing-Kept}
use emer_gen_z.Subsystem.Device.Chrdev.{Chrdev, Registry}
use emer_gen_z.Subsystem.Device.Register.{Registered, registered, refused, crashed}
use emer_gen_z.Subsystem.Device.Register.Existing.{
  Exists, IsExisting, genz_register_char_device-IsExisting,
}
use emer_gen_z.Drivers.{
  chrdev, err_chrdev, Bound, System, BindEnv, update_switch, put_cclass, Binding, made, failed,
  crash, switched, announce, bind_with, bind_one, Bindings, ended, crashed_bindings, put_front,
  skips, bind_all, fee_register, unbind_all, fee_unregister,
}

-- The adapter holds the core structure, and a device with the driver's operations that is not the error
-- of `device_create`; its place, its slots
-- and what waits there are as before.
pub record IsBoundTo (q fops : ℕ) (b b' : Bound) : Type 0 where
  pub points : b'.adapter.core ≡ some q
  pub device : Chrdev
  pub operations : b'.genz_chrdev ≡ chrdev device fops
  pub exists : Exists device
  pub same_place : b'.address ≡ b.address
  pub same_slot : b'.adapter.my_slot ≡ b.adapter.my_slot
  pub same_mail : b'.adapter.incoming_slot ≡ b.adapter.incoming_slot

-- `n` of the adapters are bound, those that the choice of a slot leaves, and the others are as before.
pub data AreBound (q fops : ℕ) (only_slot : ℤ) : ℕ → List Bound → List Bound → Type 0 where
  all_done : AreBound q fops only_slot 0 [] []
  passed_over :
      {n : ℕ} {b : Bound} {bs bs' : List Bound}
      → skips only_slot b ≡ true
      → AreBound q fops only_slot n bs bs'
      → AreBound q fops only_slot n (b ∷ bs) (b ∷ bs')
  bound_one :
      {n : ℕ} {b b' : Bound} {bs bs' : List Bound}
      → skips only_slot b ≡ false
      → IsBoundTo q fops b b'
      → AreBound q fops only_slot n bs bs'
      → AreBound q fops only_slot (suc n) (b ∷ bs) (b' ∷ bs')

pub switched-made :
    (b : Bound) (r : Registry) (run : Run ℤ) (b' : Bound) (s' : System)
    → switched b r run ≡ made b' s'
    → (ret : ℤ) × (a : Adapter) × (w : World) × (run ≡ done ret a w)
      × (b' ≡ record b { adapter = a })
switched-made b r (done ret a w) b' s' e = (ret, a, w, refl, ground arith)
switched-made b r fault b' s' e = absurd (ground arith)
switched-made b r out_of_fuel b' s' e = absurd (ground arith)

announce-IsBoundTo :
    (env : Env) (q fops : ℕ) (c : Core) (d : Chrdev) (name : Option (List ℕ)) (b : Bound)
    (w : World) (r : Registry) (b' : Bound) (s' : System)
    → Exists d
    → announce env q c name (record b { genz_chrdev = chrdev d fops }) w r ≡ made b' s'
    → IsBoundTo q fops b b'
unfolding announce update_switch
announce-IsBoundTo env q fops c d none b w r b' s' there e = absurd (ground arith)
announce-IsBoundTo env q fops c d (some name) b w r b' s' there e =
    let a : Adapter = record b.adapter { core = some q } in
    let (ret, a', w', run, same) =
      switched-made (record b { genz_chrdev = chrdev d fops }) r
        (update_switch env a (put_cclass name q c a w)) b' s' e in
    let kept =
      (fee_create_outgoing-Kept env _ _ _ a (put_cclass name q c a w) ret a' w' run).adapter_kept in
    record {
      points = ap (λ (x : Bound). x.adapter.core) same ∙ ap (λ (x : Adapter). x.core) kept;
      device = d;
      operations = ap (λ (x : Bound). x.genz_chrdev) same;
      exists = there;
      same_place = ap (λ (x : Bound). x.address) same;
      same_slot = ap (λ (x : Bound). x.adapter.my_slot) same ∙ ap (λ (x : Adapter). x.my_slot) kept;
      same_mail =
          ap (λ (x : Bound). x.adapter.incoming_slot) same
          ∙ ap (λ (x : Adapter). x.incoming_slot) kept;
    }

switched-not_failed :
    (b : Bound) (r : Registry) (run : Run ℤ) (ret : ℤ) (b' : Bound) (s' : System)
    → switched b r run ≢ failed ret b' s'
switched-not_failed b r (done _ a w) ret b' s' e = ground arith
switched-not_failed b r fault ret b' s' e = ground arith
switched-not_failed b r out_of_fuel ret b' s' e = ground arith

announce-not_failed :
    (env : Env) (q : ℕ) (c : Core) (name : Option (List ℕ)) (b : Bound) (w : World) (r : Registry)
    (ret : ℤ) (b' : Bound) (s' : System)
    → announce env q c name b w r ≢ failed ret b' s'
unfolding announce
announce-not_failed env q c none b w r ret b' s' e = ground arith
announce-not_failed env q c (some name) b w r ret b' s' e =
    let a : Adapter = record b.adapter { core = some q } in
    switched-not_failed b r (update_switch env a (put_cclass name q c a w)) ret b' s' e

pub Binding-cases :
    (x : Binding)
    → ((b : Bound) × (s : System) × (x ≡ made b s))
      ⊎ (((ret : ℤ) × (b : Bound) × (s : System) × (x ≡ failed ret b s)) ⊎ (x ≡ crash))
Binding-cases (made b s) = inl (b, s, refl)
Binding-cases (failed ret b s) = inr (inl (ret, b, s, refl))
Binding-cases crash = inr (inr refl)

-- what a binding comes to: the adapter is bound, or the result is negative, or nothing is left
abbrev pub ComesTo : (q fops : ℕ) → Bound → Binding → Type 0
ComesTo q fops b (made b' s') = IsBoundTo q fops b b'
ComesTo q fops b (failed ret b' s') = (is_neg ret ≡ true) × (b'.genz_chrdev ≡ err_chrdev ret)
ComesTo q fops b crash = Unit

announce-ComesTo :
    (env : Env) (q fops : ℕ) (c : Core) (d : Chrdev) (b : Bound) (w : World) (r : Registry)
    (x : Binding)
    → Exists d
    → announce env q c d.cclass (record b { genz_chrdev = chrdev d fops }) w r ≡ x
    → ComesTo q fops b x
announce-ComesTo env q fops c d b w r (made b' s') there e =
    announce-IsBoundTo env q fops c d d.cclass b w r b' s' there e
announce-ComesTo env q fops c d b w r (failed ret b' s') there e = absurd (
    announce-not_failed env q c d.cclass (record b { genz_chrdev = chrdev d fops }) w r ret b' s' e)
announce-ComesTo env q fops c d b w r crash there e = tt

bind_with-ComesTo :
    (env : BindEnv) (k q fops : ℕ) (c : Core) (b : Bound) (w : World) (r : Registered)
    → IsExisting r
    → ComesTo q fops b (bind_with env k q fops c b w r)
unfolding bind_with
bind_with-ComesTo env k q fops c b w (registered d r) there =
    announce-ComesTo (env.send_env k) q fops c d b w r _ there refl
bind_with-ComesTo env k q fops c b w (refused ret r) there =
    if-elim (ComesTo q fops b) (is_neg ret) (λ negative. (negative, refl)) (λ _. tt)
bind_with-ComesTo env k q fops c b w crashed there = tt

pub bind_one-ComesTo :
    (env : BindEnv) (k q fops : ℕ) (b : Bound) (s : System)
    → ComesTo q fops b (bind_one env k q fops b s)
unfolding bind_one
bind_one-ComesTo env k q fops b s = elim (Option-cases (s.world.cores q)) [
  | inl gone ↦ rw (gone, bind_one) tt
  | inr (c, there) ↦
      rw (there, bind_one)
        (bind_with-ComesTo env k q fops c b s.world _ (
          genz_register_char_device-IsExisting (env.register_env k) c b.address (pos b.adapter.slot)
            s.registry))
]

-- `put_front` of what ended
pub put_front-ended :
    (b : Bound) (x : Bindings) (ret : ℤ) (bs' : List Bound) (s' : System)
    → put_front b x ≡ ended ret bs' s'
    → (bs : List Bound) × (x ≡ ended ret bs s') × (bs' ≡ b ∷ bs)
put_front-ended b (ended ret0 bs s) ret bs' s' e = (bs, ground arith, ground arith)
put_front-ended b crashed_bindings ret bs' s' e = absurd (ground arith)

pub ended-positive :
    (ret : ℤ) (n : ℕ) (bs bs' : List Bound) (s s' : System)
    → is_neg ret ≡ true
    → ended ret bs s ≢ ended (pos n) bs' s'
ended-positive (pos m) n bs bs' s s' negative e = ground arith
ended-positive (negsuc m) n bs bs' s s' negative e = ground arith

bind_all-AreBound :
    (env : BindEnv) (q fops : ℕ) (only_slot : ℤ) (k m : ℕ) (bs : List Bound) (s : System) (n : ℕ)
    (bs' : List Bound) (s' : System)
    → bind_all env q fops only_slot k m bs s ≡ ended (pos n) bs' s'
    → (i : ℕ) × (n ≡ m + i) × AreBound q fops only_slot i bs bs'
unfolding bind_all
bind_all-AreBound env q fops only_slot k m [] s n bs' s' e =
    (0, ground arith, subst (AreBound q fops only_slot 0 []) (ground arith) all_done)
bind_all-AreBound env q fops only_slot k m (b ∷ bs) s n bs' s' e =
    elim (Bool-cases (skips only_slot b)) [
      | inl skipped ↦
          let (cs, run, same) =
            put_front-ended b (bind_all env q fops only_slot (k + 1) m bs s) (pos n) bs' s'
              (rw skipped at e) in
          let (i, sum, rest) = bind_all-AreBound env q fops only_slot (k + 1) m bs s n cs s' run in
          (
            i,
            sum,
            subst (AreBound q fops only_slot i (b ∷ bs)) (sym same) (passed_over skipped rest),
          )
      | inr chosen ↦
          let e' = rw chosen at e in
          let of_one = bind_one-ComesTo env k q fops b s in
          elim (Binding-cases (bind_one env k q fops b s)) [
            | inl (b2, s2, is_made) ↦
                let (cs, run, same) =
                  put_front-ended b2 (bind_all env q fops only_slot (k + 1) (m + 1) bs s2) (pos n)
                    bs' s' (rw is_made at e') in
                let (i, sum, rest) =
                  bind_all-AreBound env q fops only_slot (k + 1) (m + 1) bs s2 n cs s' run in
                (
                  suc i,
                  omega (arith, sum),
                  subst (AreBound q fops only_slot (suc i) (b ∷ bs)) (sym same)
                      (bound_one chosen (subst (ComesTo q fops b) is_made of_one) rest),
                )
            | inr (inl (ret, b2, s2, is_failed)) ↦
                let negative : is_neg ret ≡ true = (subst (ComesTo q fops b) is_failed of_one).0 in
                let e2 = rw is_failed at e' in
                absurd (ended-positive ret n (b2 ∷ bs) bs' s2 s' negative e2)
            | inr (inr is_crash) ↦ absurd (let e2 = rw is_crash at e' in ground arith)
          ]
    ]

-- A registration with the semaphore at hand that returns n has bound the driver to n adapters, the
-- ones that the choice of a slot leaves: each has the core structure and a character device with
-- the driver's operations that is not the error of device_create, and its place and slots as
-- before; the other adapters are as before.
pub fee_register-AreBound :
    (env : BindEnv) (q fops : ℕ) (only_slot : ℤ) (bs : List Bound) (s : System) (n : ℕ)
    (bs' : List Bound) (s' : System)
    → fee_register env (pos 0) q fops only_slot bs s ≡ ended (pos n) bs' s'
    → AreBound q fops only_slot n bs bs'
unfolding fee_register
fee_register-AreBound env q fops only_slot bs s n bs' s' e =
    let (i, sum, bound) = bind_all-AreBound env q fops only_slot 0 0 bs s n bs' s' e in
    subst (λ (j : ℕ). AreBound q fops only_slot j bs bs') (omega (arith, sum)) bound

-- Where the binding of an adapter at the head of the list was refused, the next unregistration of
-- any driver follows the ERR_PTR that was left in it.
pub fee_unregister-crashes :
    (env env' : BindEnv) (k q fops fops' : ℕ) (b b' : Bound) (bs : List Bound) (s s' s'' : System)
    (ret : ℤ)
    → bind_one env k q fops b s ≡ failed ret b' s'
    → fee_unregister env' (pos 0) fops' (b' ∷ bs) s'' ≡ crashed_bindings
unfolding fee_unregister unbind_all
fee_unregister-crashes env env' k q fops fops' b b' bs s s' s'' ret e =
    let err = (subst (ComesTo q fops b) e (bind_one-ComesTo env k q fops b s)).1 in rw err refl

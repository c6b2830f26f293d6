-- ===== src/Drivers/Release.antt =====
-- What an unregistration takes back.
use emer_gen_z.Base.{
  ℕ, suc, ◌+◌, ◌≡◌, refl, ◌≢◌, inl, inr, false, Option, none, some, List, [], ◌∷◌, arith, All, ℤ,
  pos, ◌==◌, ==-refl, Bool-cases, int_of_bits, ◌∙◌, ap,
}
use emer_gen_z.Text.{codes, strncpy}
use emer_gen_z.Fee.{Core, Adapter, World}
use emer_gen_z.Outgoing.{Env, genz_fee_sid_cid_is_peer_id}
use emer_gen_z.Outgoing.Wait.{Ticks}
use emer_gen_z.Outgoing.Deliver.{fee_create_outgoing-total}
use emer_gen_z.Outgoing.Frame.{fee_create_outgoing-Kept}
use emer_gen_z.Subsystem.Device.Chrdev.{
  DevicePtr, null, device, err_device, Chrdev, Registry, kfree, remove_interfaces,
  genz_unregister_char_device,
}
use emer_gen_z.Drivers.{
  no_chrdev, chrdev, Bound, System, BindEnv, default_cclass, update_switch, put_cclass, Binding,
  crash, made, switched, renounce, unbind_one, Bindings, ended, put_front, unbind_all,
  fee_unregister,
}

abbrev pub IsSomeCore : World → Option ℕ → Type 0
IsSomeCore w o = (q : ℕ) × (c : Core) × (o ≡ some q) × (w.cores q ≡ some c)

-- An adapter that an unregistration of `fops` can pass: it has no device, or one of another driver, or
-- one of this driver that exists, with its core structure alive.
pub data CanPass (fops : ℕ) (w : World) (b : Bound) : Type 0 where
  has_none : b.genz_chrdev ≡ no_chrdev → CanPass fops w b
  of_other :
      (d : Chrdev) (ops : ℕ)
      → b.genz_chrdev ≡ chrdev d ops
      → (ops == fops) ≡ false
      → CanPass fops w b
  of_this :
      (d : Chrdev)
      → b.genz_chrdev ≡ chrdev d fops
      → ((ret : ℤ) → d.this_device ≢ err_device ret)
      → IsSomeCore w b.adapter.core
      → CanPass fops w b

-- `n` devices of the driver are gone, and all other adapters are as before.
pub data AreReleased (fops : ℕ) : ℕ → List Bound → List Bound → Type 0 where
  all_done : AreReleased fops 0 [] []
  left_alone :
      {n : ℕ} {b : Bound} {bs bs' : List Bound}
      → ((d : Chrdev) → b.genz_chrdev ≢ chrdev d fops)
      → AreReleased fops n bs bs'
      → AreReleased fops n (b ∷ bs) (b ∷ bs')
  released :
      {n : ℕ} {b : Bound} {a : Adapter} {bs bs' : List Bound} (d : Chrdev)
      → b.genz_chrdev ≡ chrdev d fops
      → a ≡ record b.adapter { doorbell = a.doorbell }
      → AreReleased fops n bs bs'
      → AreReleased fops (suc n) (b ∷ bs) (record b { genz_chrdev = no_chrdev; adapter = a } ∷ bs')

unregister_run :
    (m : ℕ) (d : Chrdev) (r : Registry)
    → ((ret : ℤ) → d.this_device ≢ err_device ret)
    → (r' : Registry) × (genz_unregister_char_device m d r ≡ some r')
unfolding genz_unregister_char_device
unregister_run m d r real = go d.this_device refl
  where
    go :
        (x : DevicePtr)
        → d.this_device ≡ x
        → (r' : Registry) × (genz_unregister_char_device m d r ≡ some r')
    go null e = (kfree 1 (remove_interfaces m d r), rw e refl)
    go (device k) e = (kfree 1 (remove_interfaces m d r), rw e refl)
    go (err_device ret) e = absurd (real ret e)

module _ (env : Env) (ticks : Ticks env) (d : Chrdev) (b : Bound) (s : System) (q : ℕ) (c : Core)
    (points : b.adapter.core ≡ some q) (alive : s.world.cores q ≡ some c)
    (real : (ret : ℤ) → d.this_device ≢ err_device ret) where
  unbind_at :
      unbind_one env d b s
      ≡ renounce env q c b s.world (genz_unregister_char_device c.max_interface d s.registry)
  unfolding unbind_one
  unbind_at =
      let with_core : ℕ → Option Core → Binding = λ x o. elim o [
        | none ↦ crash
        | some y ↦
            renounce env x y b s.world (genz_unregister_char_device y.max_interface d s.registry)
      ] in
      let with_pointer : Option ℕ → Binding =
        λ o. elim o [ none ↦ crash | some x ↦ with_core x (s.world.cores x) ] in
      ap with_pointer points ∙ ap (with_core q) alive

  -- An unbinding of a device that exists succeeds, and the live core structures stay alive.
  unbind_run :
      (a : Adapter) × (s' : System) × (unbind_one env d b s
        ≡ made (record b { genz_chrdev = no_chrdev; adapter = a }) s')
      × (a ≡ record b.adapter { doorbell = a.doorbell })
      × ((o : Option ℕ) → IsSomeCore s.world o → IsSomeCore s'.world o)
  unfolding update_switch
  unbind_run =
      let (r, gone) = unregister_run c.max_interface d s.registry real in
      let w = put_cclass default_cclass q c b.adapter s.world in
      let (ret, a, w', run) =
        fee_create_outgoing-total env (int_of_bits b.adapter.globals.server_id)
          genz_fee_sid_cid_is_peer_id (codes "dump") b.adapter w ticks in
      let kept =
        fee_create_outgoing-Kept env (int_of_bits b.adapter.globals.server_id)
          genz_fee_sid_cid_is_peer_id (codes "dump") b.adapter w ret a w' run in
      (
        a,
        record { world = w'; registry = r },
        unbind_at
            ∙ (ap (renounce env q c b s.world) gone
                ∙ ap (switched (record b { genz_chrdev = no_chrdev }) r) run),
        kept.adapter_kept,
        λ o live.
            let (x, cx, at, there) = live in
            elim (Bool-cases (x == q)) [
              | inl same ↦ (
                x,
                record c { base_c_class_str = strncpy c.base_c_class_str default_cclass 31 },
                at,
                ap (λ f. f x) kept.cores_kept ∙ rw same refl,
              )
              | inr other ↦ (x, cx, at, ap (λ f. f x) kept.cores_kept ∙ (rw other there))
            ],
      )

CanPass-kept :
    (fops : ℕ) (w w' : World)
    → ((o : Option ℕ) → IsSomeCore w o → IsSomeCore w' o)
    → (bs : List Bound) → All (CanPass fops w) bs
    → All (CanPass fops w') bs
CanPass-kept fops w w' live [] all = tt
CanPass-kept fops w w' live (b ∷ bs) all = (go all.0, CanPass-kept fops w w' live bs all.1)
  where
    go : CanPass fops w b → CanPass fops w' b
    go (has_none e) = has_none e
    go (of_other d ops e ne) = of_other d ops e ne
    go (of_this d e real core) = of_this d e real (live b.adapter.core core)

-- one round of the loop
module _ (env : BindEnv) (fops k ret : ℕ) (b : Bound) (bs : List Bound) (s : System) where
  abbrev passing : Bindings
  passing = put_front b (unbind_all env fops (k + 1) ret bs s)

  pass_none : b.genz_chrdev ≡ no_chrdev → unbind_all env fops k ret (b ∷ bs) s ≡ passing
  unfolding unbind_all
  pass_none e = simp (e) refl

  pass_other :
      (d : Chrdev) (ops : ℕ)
      → b.genz_chrdev ≡ chrdev d ops
      → (ops == fops) ≡ false
      → unbind_all env fops k ret (b ∷ bs) s ≡ passing
  unfolding unbind_all
  pass_other d ops e ne = simp (e, ne) refl

  pass_this :
      (d : Chrdev) (b' : Bound) (s' : System)
      → b.genz_chrdev ≡ chrdev d fops
      → unbind_one (env.send_env k) d b s ≡ made b' s'
      → unbind_all env fops k ret (b ∷ bs) s
        ≡ put_front b' (unbind_all env fops (k + 1) (ret + 1) bs s')
  unfolding unbind_all
  pass_this d b' s' e run = simp (e, ==-refl fops, run) refl

  skip_AreReleased :
      unbind_all env fops k ret (b ∷ bs) s ≡ passing
      → ((d : Chrdev) → b.genz_chrdev ≢ chrdev d fops)
      → (n : ℕ) (bs' : List Bound) (s' : System)
      → unbind_all env fops (k + 1) ret bs s ≡ ended (pos (ret + n)) bs' s'
      → AreReleased fops n bs bs'
      → (n : ℕ) × (bs' : List Bound) × (s' : System) × (unbind_all env fops k ret (b ∷ bs) s
          ≡ ended (pos (ret + n)) bs' s')
        × AreReleased fops n (b ∷ bs) bs'
  skip_AreReleased pass other n bs' s' run rest =
      (n, b ∷ bs', s', pass ∙ ap (put_front b) run, left_alone other rest)

unbind_all-AreReleased :
    (env : BindEnv) (fops k ret : ℕ) (bs : List Bound) (s : System)
    → ((i : ℕ) → Ticks (env.send_env i))
    → All (CanPass fops s.world) bs
    → (n : ℕ) × (bs' : List Bound) × (s' : System) × (unbind_all env fops k ret bs s
        ≡ ended (pos (ret + n)) bs' s')
      × AreReleased fops n bs bs'
unfolding unbind_all
unbind_all-AreReleased env fops k ret [] s ticks all =
    (0, [], s, ap (λ x. ended (pos x) [] s) (omega arith), all_done)
unbind_all-AreReleased env fops k ret (b ∷ bs) s ticks all = elim all.0 [
  | has_none e ↦
      let (n, bs', s', run, rest) = unbind_all-AreReleased env fops (k + 1) ret bs s ticks all.1 in
      skip_AreReleased env fops k ret b bs s (pass_none env fops k ret b bs s e) (λ d h. cc (e, h))
        n bs' s' run rest
  | of_other d ops e ne ↦
      let (n, bs', s', run, rest) = unbind_all-AreReleased env fops (k + 1) ret bs s ticks all.1 in
      skip_AreReleased env fops k ret b bs s (pass_other env fops k ret b bs s d ops e ne)
        (λ d' h. ground (arith, e, h, ne)) n bs' s' run rest
  | of_this d e real (q, c, at, there) ↦
      let (a, s1, gone, kept, live) =
        unbind_run (env.send_env k) (ticks k) d b s q c at there real in
      let (n, bs', s', run, rest) =
        unbind_all-AreReleased env fops (k + 1) (ret + 1) bs s1 ticks
          (CanPass-kept fops s.world s1.world live bs all.1) in
      let b' : Bound = record b { genz_chrdev = no_chrdev; adapter = a } in
      (
        suc n,
        b' ∷ bs',
        s',
        pass_this env fops k ret b bs s d b' s1 e gone
            ∙ (ap (put_front b') run ∙ ap (λ x. ended (pos x) (b' ∷ bs') s') (omega arith)),
        released d e kept rest,
      )
]

-- An unregistration with the semaphore at hand, on clocks that tick, past adapters whose devices of this
-- driver exist with their core structures alive, ends: it returns the number of the driver's devices,
-- all of which are gone, their adapters but for the doorbell as before, and leaves all others alone.
pub fee_unregister-AreReleased :
    (env : BindEnv) (fops : ℕ) (bs : List Bound) (s : System)
    → ((i : ℕ) → Ticks (env.send_env i))
    → All (CanPass fops s.world) bs
    → (n : ℕ) × (bs' : List Bound) × (s' : System) × (fee_unregister env (pos 0) fops bs s
        ≡ ended (pos n) bs' s')
      × AreReleased fops n bs bs'
unfolding fee_unregister
fee_unregister-AreReleased env fops bs s ticks all =
    let (n, bs', s', run, rest) = unbind_all-AreReleased env fops 0 0 bs s ticks all in
    (n, bs', s', run ∙ ap (λ x. ended (pos x) bs' s') (omega arith), rest)

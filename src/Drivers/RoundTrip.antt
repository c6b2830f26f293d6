-- ===== src/Drivers/RoundTrip.antt =====
-- A registration and the unregistration of the same driver.
use emer_gen_z.Base.{
  ℕ, suc, ◌+◌, ◌≡◌, refl, inl, inr, true, Option, none, some, List, [], ◌∷◌, arith, All, ℤ, pos,
  is_neg, Bool-cases, Option-cases, ◌∙◌, ap, sym,
}
use mathlib.Core.Path.{subst}
use emer_gen_z.Fee.{Core, Adapter, World, Run, done, fault, out_of_fuel, update_self}
use emer_gen_z.Outgoing.{Env}
use emer_gen_z.Outgoing.Wait.{Ticks}
use emer_gen_z.Outgoing.Frame.{fee_create_outgoing-Kept}
use emer_gen_z.Subsystem.Device.Chrdev.{Registry}
use emer_gen_z.Subsystem.Device.Register.{Registered, registered, refused, crashed}
use emer_gen_z.Drivers.{
  no_chrdev, chrdev, Bound, System, BindEnv, put_cclass, update_switch, made, switched, announce,
  bind_with, bind_one, ended, skips, bind_all, fee_register, fee_unregister,
}
use emer_gen_z.Drivers.Laws.{
  AreBound, all_done, passed_over, bound_one, put_front-ended, Binding-cases, ended-positive,
  ComesTo, bind_one-ComesTo, fee_register-AreBound,
}
use emer_gen_z.Drivers.Release as Release
use emer_gen_z.Drivers.Release.{
  CanPass, has_none, of_this, AreReleased, left_alone, released, fee_unregister-AreReleased,
}

-- The core structure at `q` is alive.
abbrev pub IsAlive : ℕ → World → Type 0
IsAlive q w = (c : Core) × (w.cores q ≡ some c)

-- The adapter has no device.
abbrev pub IsFree : Bound → Type 0
IsFree b = b.genz_chrdev ≡ no_chrdev

switched-world :
    (b : Bound) (r : Registry) (run : Run ℤ) (b' : Bound) (s' : System)
    → switched b r run ≡ made b' s'
    → (ret : ℤ) × (a : Adapter) × (run ≡ done ret a s'.world)
switched-world b r (done ret a w) b' s' e = (ret, a, ground arith)
switched-world b r fault b' s' e = absurd (ground arith)
switched-world b r out_of_fuel b' s' e = absurd (ground arith)

-- A binding that is made leaves the core structure alive.
announce-IsAlive :
    (env : Env) (q : ℕ) (c : Core) (name : Option (List ℕ)) (b : Bound) (w : World) (r : Registry)
    (b' : Bound) (s' : System)
    → announce env q c name b w r ≡ made b' s'
    → IsAlive q s'.world
unfolding announce update_switch
announce-IsAlive env q c none b w r b' s' e = absurd (ground arith)
announce-IsAlive env q c (some name) b w r b' s' e =
    let a : Adapter = record b.adapter { core = some q } in
    let (ret, a', run) =
      switched-world b r (update_switch env a (put_cclass name q c a w)) b' s' e in
    let kept =
      (fee_create_outgoing-Kept env _ _ _ a (put_cclass name q c a w) ret a' s'.world
        run).cores_kept in
    (_, ap (λ f. f q) kept ∙ update_self w.cores q _)

bind_with-IsAlive :
    (env : BindEnv) (k q fops : ℕ) (c : Core) (b : Bound) (w : World) (x : Registered) (b' : Bound)
    (s' : System)
    → bind_with env k q fops c b w x ≡ made b' s'
    → IsAlive q s'.world
unfolding bind_with
bind_with-IsAlive env k q fops c b w (registered d r) b' s' e =
    announce-IsAlive (env.send_env k) q c d.cclass (record b { genz_chrdev = chrdev d fops }) w r b'
      s' e
bind_with-IsAlive env k q fops c b w (refused ret r) b' s' e = absurd (ground arith)
bind_with-IsAlive env k q fops c b w crashed b' s' e = absurd (ground arith)

bind_one-IsAlive :
    (env : BindEnv) (k q fops : ℕ) (b : Bound) (s : System) (b' : Bound) (s' : System)
    → bind_one env k q fops b s ≡ made b' s'
    → IsAlive q s'.world
unfolding bind_one
bind_one-IsAlive env k q fops b s b' s' e = elim (Option-cases (s.world.cores q)) [
  | inl gone ↦ absurd (let e' = rw (gone, bind_one) at e in ground arith)
  | inr (c, there) ↦ bind_with-IsAlive env k q fops c b s.world _ b' s' (rw (there, bind_one) at e)
]

-- So does the whole loop, where it ends well.
bind_all-IsAlive :
    (env : BindEnv) (q fops : ℕ) (only_slot : ℤ) (k m : ℕ) (bs : List Bound) (s : System) (n : ℕ)
    (bs' : List Bound) (s' : System)
    → IsAlive q s.world
    → bind_all env q fops only_slot k m bs s ≡ ended (pos n) bs' s'
    → IsAlive q s'.world
unfolding bind_all
bind_all-IsAlive env q fops only_slot k m [] s n bs' s' alive e =
    let same : s ≡ s' = ground arith in subst (λ (x : System). IsAlive q x.world) same alive
bind_all-IsAlive env q fops only_slot k m (b ∷ bs) s n bs' s' alive e =
    elim (Bool-cases (skips only_slot b)) [
      | inl skipped ↦
          let (cs, run, same) =
            put_front-ended b (bind_all env q fops only_slot (k + 1) m bs s) (pos n) bs' s'
              (rw skipped at e) in
          bind_all-IsAlive env q fops only_slot (k + 1) m bs s n cs s' alive run
      | inr chosen ↦
          let e' = rw chosen at e in
          elim (Binding-cases (bind_one env k q fops b s)) [
            | inl (b2, s2, is_made) ↦
                let (cs, run, same) =
                  put_front-ended b2 (bind_all env q fops only_slot (k + 1) (m + 1) bs s2) (pos n)
                    bs' s' (rw is_made at e') in
                bind_all-IsAlive env q fops only_slot (k + 1) (m + 1) bs s2 n cs s'
                  (bind_one-IsAlive env k q fops b s b2 s2 is_made) run
            | inr (inl (ret, b2, s2, is_failed)) ↦
                let negative : is_neg ret ≡ true =
                  (subst (ComesTo q fops b) is_failed (bind_one-ComesTo env k q fops b s)).0 in
                let e2 = rw is_failed at e' in
                absurd (ended-positive ret n (b2 ∷ bs) bs' s2 s' negative e2)
            | inr (inr is_crash) ↦ absurd (let e2 = rw is_crash at e' in ground arith)
          ]
    ]

fee_register-IsAlive :
    (env : BindEnv) (q fops : ℕ) (only_slot : ℤ) (bs : List Bound) (s : System) (n : ℕ)
    (bs' : List Bound) (s' : System)
    → IsAlive q s.world
    → fee_register env (pos 0) q fops only_slot bs s ≡ ended (pos n) bs' s'
    → IsAlive q s'.world
unfolding fee_register
fee_register-IsAlive env q fops only_slot bs s n bs' s' =
    bind_all-IsAlive env q fops only_slot 0 0 bs s n bs' s'

-- What a registration leaves, an unregistration of the same driver can pass.
AreBound-CanPass :
    (q fops : ℕ) (only_slot : ℤ) (n : ℕ) (bs bs' : List Bound) (w : World)
    → IsAlive q w
    → All IsFree bs
    → AreBound q fops only_slot n bs bs'
    → All (CanPass fops w) bs'
AreBound-CanPass q fops only_slot n bs bs' w alive free all_done = tt
AreBound-CanPass q fops only_slot n bs bs' w alive free
      (passed_over {n = i} {b} {bs = cs} {bs' = cs'} skipped rest) =
    (has_none free.0, AreBound-CanPass q fops only_slot i cs cs' w alive free.1 rest)
AreBound-CanPass q fops only_slot n bs bs' w alive free
      (bound_one {n = i} {b} {b'} {bs = cs} {bs' = cs'} chosen to rest) =
    (
      of_this to.device to.operations to.exists (q, alive.0, to.points, alive.1),
      AreBound-CanPass q fops only_slot i cs cs' w alive free.1 rest,
    )

-- an adapter after both: without a device, where it was, with its slots and what waits there
pub record IsFreed (b b'' : Bound) : Type 0 where
  pub free : IsFree b''
  pub same_place : b''.address ≡ b.address
  pub same_slot : b''.adapter.my_slot ≡ b.adapter.my_slot
  pub same_mail : b''.adapter.incoming_slot ≡ b.adapter.incoming_slot

pub data AreFreed : List Bound → List Bound → Type 0 where
  none_left : AreFreed [] []
  freed :
      {b b'' : Bound} {bs bs'' : List Bound}
      → IsFreed b b''
      → AreFreed bs bs''
      → AreFreed (b ∷ bs) (b'' ∷ bs'')

AreReleased-AreFreed :
    (q fops : ℕ) (only_slot : ℤ) (n i : ℕ) (bs bs' bs'' : List Bound)
    → All IsFree bs
    → AreBound q fops only_slot n bs bs'
    → AreReleased fops i bs' bs''
    → (n ≡ i) × AreFreed bs bs''
AreReleased-AreFreed q fops only_slot n i bs bs' bs'' free all_done Release.all_done =
    (refl, none_left)
AreReleased-AreFreed q fops only_slot n i bs bs' bs'' free
      (passed_over {n = m} {b} {bs = cs} {bs' = cs'} skipped rest)
      (left_alone {bs' = cs''} other more) =
    let (count, all) = AreReleased-AreFreed q fops only_slot m i cs cs' cs'' free.1 rest more in
    (
      count,
      freed (record { free = free.0; same_place = refl; same_slot = refl; same_mail = refl }) all,
    )
AreReleased-AreFreed q fops only_slot n i bs bs' bs'' free (passed_over skipped rest)
      (released d there kept more) =
    absurd (ground (arith, free.0, there))
AreReleased-AreFreed q fops only_slot n i bs bs' bs'' free (bound_one chosen to rest)
      (left_alone other more) =
    absurd (other to.device to.operations)
AreReleased-AreFreed q fops only_slot n i bs bs' bs'' free
      (bound_one {n = m} {b} {b'} {bs = cs} {bs' = cs'} chosen to rest)
      (released {n = j} {b = b1} {a} {bs' = cs''} d there kept more) =
    let (count, all) = AreReleased-AreFreed q fops only_slot m j cs cs' cs'' free.1 rest more in
    (
      ap suc count,
      freed
          (record {
            free = refl;
            same_place = to.same_place;
            same_slot = ap (λ (x : Adapter). x.my_slot) kept ∙ to.same_slot;
            same_mail = ap (λ (x : Adapter). x.incoming_slot) kept ∙ to.same_mail;
          })
          all,
    )

-- Where no adapter has a device and the core structure is alive, a registration with the semaphore at
-- hand that returns `n` is undone by an unregistration with the semaphore at hand, on clocks that tick:
-- it returns `n` too, and no adapter has a device, each where it was, with its slots and what waits
-- there.
pub fee_unregister-undoes :
    (env env' : BindEnv) (q fops : ℕ) (only_slot : ℤ) (bs bs' : List Bound) (s s' : System) (n : ℕ)
    → IsAlive q s.world
    → All IsFree bs
    → ((i : ℕ) → Ticks (env'.send_env i))
    → fee_register env (pos 0) q fops only_slot bs s ≡ ended (pos n) bs' s'
    → (bs'' : List Bound) × (s'' : System) × (fee_unregister env' (pos 0) fops bs' s'
        ≡ ended (pos n) bs'' s'')
      × AreFreed bs bs''
fee_unregister-undoes env env' q fops only_slot bs bs' s s' n alive free ticks run =
    let bound = fee_register-AreBound env q fops only_slot bs s n bs' s' run in
    let alive' = fee_register-IsAlive env q fops only_slot bs s n bs' s' alive run in
    let (i, bs'', s'', gone, all) =
      fee_unregister-AreReleased env' fops bs' s' ticks
        (AreBound-CanPass q fops only_slot n bs bs' s'.world alive' free bound) in
    let (count, freed_all) = AreReleased-AreFreed q fops only_slot n i bs bs' bs'' free bound all in
    (bs'', s'', gone ∙ ap (λ x. ended (pos x) bs'' s'') (sym count), freed_all)

-- ===== src/Drivers.antt =====
-- `FEE_register` and `FEE_unregister` of shim_bridge/fee_register.c: a driver is bound to the adapters,
-- with a character device on each, and unbound again.
pub mod Laws
pub mod Release
pub mod RoundTrip
use emer_gen_z.Base.{
  ℕ, zero, suc, ◌+◌, ◌==◌, Bool, true, false, not, ◌&&◌, Option, none, some, List, [], ◌∷◌, ◌++◌,
  if◌then◌else◌, take, drop, replicate, ℤ, pos, nonzero, is_neg, eq_ℤ, int_of_bits,
}
use emer_gen_z.Text.{codes, strncpy}
use emer_gen_z.Fee.{Core, Adapter, World, Run, done, fault, out_of_fuel, Cmd, update}
use emer_gen_z.Outgoing.{Env, fee_create_outgoing, genz_fee_sid_cid_is_peer_id}
use emer_gen_z.Subsystem.Device.Chrdev.{Chrdev, Registry, genz_unregister_char_device}
use emer_gen_z.Subsystem.Device.Register.{
  RegisterEnv, Registered, registered, refused, crashed, genz_register_char_device,
}

-- `adapter->genz_chrdev`: NULL, a device with its file operations, or an `ERR_PTR`
pub data ChrdevPtr : Type 0 where
  no_chrdev : ChrdevPtr
  chrdev : Chrdev → (ops : ℕ) → ChrdevPtr
  err_chrdev : ℤ → ChrdevPtr

-- an adapter of `FEE_adapter_list`, with its address
pub record Bound : Type 0 where
  pub address : ℕ
  pub adapter : Adapter
  pub genz_chrdev : ChrdevPtr

-- what all adapters share
pub record System : Type 0 where
  pub world : World
  pub registry : Registry

-- what the kernel and the other clients do at the `k`-th adapter
pub record BindEnv : Type 0 where
  pub register_env : ℕ → RegisterEnv
  pub send_env : ℕ → Env

abbrev pub default_cclass : List ℕ
default_cclass = codes "FEEadapter"

-- `UPDATE_SWITCH`: the server is asked for a dump
unfoldable pub update_switch : Env → Cmd ℤ
update_switch env a w =
    fee_create_outgoing env (int_of_bits a.globals.server_id) genz_fee_sid_cid_is_peer_id
      (codes "dump") a w

-- the class in the core structure and in the own slot
abbrev pub put_cclass : List ℕ → (q : ℕ) → Core → Adapter → World → World
put_cclass name q c a w = record w {
  cores =
      update w.cores q (some (record c { base_c_class_str = strncpy c.base_c_class_str name 31 }));
  mem =
      update w.mem a.my_slot
        (record (w.mem a.my_slot) { cclass = strncpy (w.mem a.my_slot).cclass name 31 });
}

-- one binding: it is made, or fails, or ends in a crash
pub data Binding : Type 0 where
  made : Bound → System → Binding
  failed : ℤ → Bound → System → Binding
  crash : Binding

-- behind `UPDATE_SWITCH`, whose result is not looked at
abbrev pub switched : Bound → Registry → Run ℤ → Binding
switched b r (done _ a w) = made (record b { adapter = a }) (record { world = w; registry = r })
switched b r fault = crash
switched b r out_of_fuel = crash

-- behind the registration; a class without a name would be a NULL
unfoldable pub announce :
    Env → (q : ℕ) → Core → (cclass : Option (List ℕ)) → Bound → World → Registry → Binding
announce env q c none b w r = crash
announce env q c (some name) b w r =
    let a : Adapter = record b.adapter { core = some q } in
    switched b r (update_switch env a (put_cclass name q c a w))

unfoldable pub bind_with : BindEnv → (k q fops : ℕ) → Core → Bound → World → Registered → Binding
bind_with env k q fops c b w (registered d r) =
    announce (env.send_env k) q c d.cclass (record b { genz_chrdev = chrdev d fops }) w r
bind_with env k q fops c b w (refused ret r) =
    if is_neg ret
    then failed ret (record b { genz_chrdev = err_chrdev ret }) (record { world = w; registry = r })
    else crash
bind_with env k q fops c b w crashed = crash

-- `q` is the address of the core structure.
unfoldable pub bind_one : BindEnv → (k q fops : ℕ) → Bound → System → Binding
bind_one env k q fops b s = elim (s.world.cores q) [
  | none ↦ crash
  | some c ↦
      bind_with env k q fops c b s.world
        (genz_register_char_device (env.register_env k) c b.address (pos b.adapter.slot) s.registry)
]

-- all bindings: the result, the adapters and what they share
pub data Bindings : Type 0 where
  ended : ℤ → List Bound → System → Bindings
  crashed_bindings : Bindings

abbrev pub put_front : Bound → Bindings → Bindings
put_front b (ended ret bs s) = ended ret (b ∷ bs) s
put_front b crashed_bindings = crashed_bindings

abbrev pub skips : (only_slot : ℤ) → Bound → Bool
skips only_slot b = nonzero only_slot && not (eq_ℤ only_slot (pos b.adapter.slot))

-- `list_for_each_entry` of `FEE_register`, from the `k`-th adapter on
unfoldable pub bind_all :
    BindEnv → (q fops : ℕ) → (only_slot : ℤ) → (k nbindings : ℕ) → List Bound → System → Bindings
bind_all env q fops only_slot k nbindings [] s = ended (pos nbindings) [] s
bind_all env q fops only_slot k nbindings (b ∷ bs) s =
    let rest = put_front b (bind_all env q fops only_slot (k + 1) nbindings bs s) in
    let bound : Bindings = elim (bind_one env k q fops b s) [
      | made b' s' ↦ put_front b' (bind_all env q fops only_slot (k + 1) (nbindings + 1) bs s')
      | failed ret b' s' ↦ ended ret (b' ∷ bs) s'
      | crash ↦ crashed_bindings
    ] in
    if skips only_slot b then rest else bound

-- `down` is what `down_interruptible` returns.
unfoldable pub fee_register :
    BindEnv → (down : ℤ) → (q fops : ℕ) → (only_slot : ℤ) → List Bound → System → Bindings
fee_register env down q fops only_slot bs s =
    if nonzero down then ended down bs s else bind_all env q fops only_slot 0 0 bs s

-- behind `genz_unregister_char_device`
abbrev pub renounce : Env → (q : ℕ) → Core → Bound → World → Option Registry → Binding
renounce env q c b w none = crash
renounce env q c b w (some r) =
    switched (record b { genz_chrdev = no_chrdev }) r
      (update_switch env b.adapter (put_cclass default_cclass q c b.adapter w))

-- The device's core structure is that of the adapter: `FEE_register` stores it in both.
unfoldable pub unbind_one : Env → Chrdev → Bound → System → Binding
unbind_one env d b s = elim b.adapter.core [
  | none ↦ crash
  | some q ↦ elim (s.world.cores q) [
    | none ↦ crash
    | some c ↦ renounce env q c b s.world (genz_unregister_char_device c.max_interface d s.registry)
  ]
]

-- the loop of `FEE_unregister`; an `ERR_PTR` is followed
unfoldable pub unbind_all : BindEnv → (fops k ret : ℕ) → List Bound → System → Bindings
unbind_all env fops k ret [] s = ended (pos ret) [] s
unbind_all env fops k ret (b ∷ bs) s =
    let rest = put_front b (unbind_all env fops (k + 1) ret bs s) in
    elim b.genz_chrdev [
      | no_chrdev ↦ rest
      | err_chrdev _ ↦ crashed_bindings
      | chrdev d ops ↦
          if ops == fops
          then elim (unbind_one (env.send_env k) d b s) [
            | made b' s' ↦ put_front b' (unbind_all env fops (k + 1) (ret + 1) bs s')
            | failed _ b' s' ↦ crashed_bindings
            | crash ↦ crashed_bindings
          ]
          else rest
    ]

unfoldable pub fee_unregister : BindEnv → (down : ℤ) → (fops : ℕ) → List Bound → System → Bindings
fee_unregister env down fops bs s =
    if nonzero down then ended down bs s else unbind_all env fops 0 0 bs s

-- ===== src/Fee.antt =====
-- The data of shim_bridge/fee.h, and commands over one adapter and what it shares with the others:
-- the mailslots in the IVSHMEM region, and the core structures on the kernel's heap.
use emer_gen_z.Base.{
  ℕ, ◌==◌, ◌≡◌, ◌≢◌, ==-refl, ne→==, refl, Bool, Option, none, some, List, if◌then◌else◌, ℤ, arith,
}

-- `struct FEE_globals`, with the kernel address at which BAR 2 is mapped
pub record Globals : Type 0 where
  pub base : ℕ
  pub slotsize : ℕ
  pub buf_offset : ℕ
  pub n_clients : ℕ
  pub n_events : ℕ
  pub server_id : ℕ

-- `struct FEE_mailslot`; `buf` is the flexible array, up to the end of the slot
pub record Mailslot : Type 0 where
  pub nodename : List ℕ
  pub cclass : List ℕ
  pub buflen : ℕ
  pub peer_id : ℕ
  pub last_responder : ℕ
  pub peer_sid : ℕ
  pub peer_cid : ℕ
  pub buf : List ℕ

-- `struct msix_entry` of linux/pci.h
pub record MsixEntry : Type 0 where
  pub vector : ℕ
  pub entry : ℕ

-- `struct genz_core_structure`; the destination table is an address on the heap, 0 for NULL
pub record Core : Type 0 where
  pub cce : ℕ
  pub base_c_class_str : List ℕ
  pub max_interface : ℕ
  pub max_data : ℕ
  pub max_ctl : ℕ
  pub cid0 : ℤ
  pub sid0 : ℤ
  pub pmcid : ℤ
  pub pfmcid : ℤ
  pub pfmsid : ℤ
  pub sfmcid : ℤ
  pub sfmsid : ℤ
  pub comp_dest_table : ℕ

-- `struct bridge_buffers` of gf_bridge.h
pub record BridgeBuffers : Type 0 where
  pub wbuf : List ℕ
  pub wbuf_locked : Bool

-- `struct FEE_adapter`, while its BARs are mapped. Pointers are addresses or `none`; `core` is an
-- address on the heap. `doorbell` lists what was written to the register, the latest first.
pub record Adapter : Type 0 where
  pub nr_users : ℤ
  pub slot : ℕ
  pub max_buflen : ℕ
  pub my_id : ℕ
  pub doorbell : List ℕ
  pub globals : Globals
  pub my_slot : ℕ
  pub irq_private : Option (List MsixEntry)
  pub incoming_slot : Option ℕ
  pub incoming_slot_locked : Bool
  pub outgoing : Option BridgeBuffers
  pub core : Option ℕ

abbrev pub Mem : Type 0
Mem = ℕ → Mailslot

-- `longest` is the static variable of fee_IVSHMSG.c.
pub record World : Type 0 where
  pub mem : Mem
  pub cores : ℕ → Option Core
  pub longest : ℕ

abbrev pub update {ℓ} : {A : Type ℓ} → (ℕ → A) → ℕ → A → ℕ → A
update f p v q = if q == p then v else f q

-- A run ends with a value, or in a fault: a NULL or freed pointer was followed.
-- `out_of_fuel` is the end of a loop's bound, and no behaviour of the code.
pub data Run (A : Type 0) : Type 0 where
  done : A → Adapter → World → Run A
  fault : Run A
  out_of_fuel : Run A

abbrev pub Cmd : Type 0 → Type 0
Cmd A = Adapter → World → Run A

abbrev pub pure : {A : Type 0} → A → Cmd A
pure = done

module _ {A B : Type 0} where
  abbrev pub and_then : Run A → (A → Cmd B) → Run B
  and_then (done x a w) k = k x a w
  and_then fault k = fault
  and_then out_of_fuel k = out_of_fuel

  infixl 5 ◌>>=◌ ◌>>◌
  abbrev pub ◌>>=◌ : Cmd A → (A → Cmd B) → Cmd B
  ◌>>=◌ m k a w = and_then (m a w) k

  abbrev pub ◌>>◌ : Cmd A → Cmd B → Cmd B
  m >> n = m >>= λ _. n

abbrev pub get_adapter : Cmd Adapter
get_adapter a w = done a a w

abbrev pub put_adapter : Adapter → Cmd (Unit {0})
put_adapter a _ w = done tt a w

abbrev pub get_world : Cmd World
get_world a w = done w a w

abbrev pub put_world : World → Cmd (Unit {0})
put_world w a _ = done tt a w

-- the mailslot at an address of the shared region
abbrev pub load_slot : ℕ → Cmd Mailslot
load_slot p a w = done (w.mem p) a w

abbrev pub store_slot : ℕ → Mailslot → Cmd (Unit {0})
store_slot p s a w = done tt a (record w { mem = update w.mem p s })

-- the structure behind `adapter->core`
abbrev pub load_core : Cmd Core
load_core a w = elim a.core [
  | none ↦ fault
  | some p ↦ elim (w.cores p) [ none ↦ fault | some c ↦ done c a w ]
]

abbrev pub store_core : Core → Cmd (Unit {0})
store_core c a w = elim a.core [
  | none ↦ fault
  | some p ↦ elim (w.cores p) [
    | none ↦ fault
    | some _ ↦ done tt a (record w { cores = update w.cores p (some c) })
  ]
]

abbrev pub spin_lock : Cmd (Unit {0})
spin_lock a w = done tt (record a { incoming_slot_locked = Bool.true }) w

abbrev pub spin_unlock : Cmd (Unit {0})
spin_unlock a w = done tt (record a { incoming_slot_locked = Bool.false }) w

-- A composed run that ends has both parts end.
pub and_then-done :
    {A B : Type 0} (r : Run A) (k : A → Cmd B) {b : B} {a' : Adapter} {w' : World}
    → and_then r k ≡ done b a' w'
    → (x : A) × (a : Adapter) × (w : World) × (r ≡ done x a w) × (k x a w ≡ done b a' w')
and_then-done (done x a w) k e = (x, a, w, refl, e)
and_then-done fault k e = cc
and_then-done out_of_fuel k e = cc

-- Reading and writing the core structure leave the adapter alone.
pub load_core-done :
    (a : Adapter) (w : World) {c : Core} {a' : Adapter} {w' : World}
    → load_core a w ≡ done c a' w'
    → (a' ≡ a) × (w' ≡ w)
load_core-done a w e = ground arith

pub store_core-done :
    (c : Core) (a : Adapter) (w : World) {x : Unit {0}} {a' : Adapter} {w' : World}
    → store_core c a w ≡ done x a' w'
    → (a' ≡ a) × (w'.mem ≡ w.mem)
store_core-done c a w e = ground arith

-- Through a valid pointer both succeed.
pub load_core-run :
    (a : Adapter) (w : World) {q : ℕ} {c : Core}
    → a.core ≡ some q
    → w.cores q ≡ some c
    → load_core a w ≡ done c a w
load_core-run a w e f = ground arith

pub store_core-run :
    (c' : Core) (a : Adapter) (w : World) {q : ℕ} {c : Core}
    → a.core ≡ some q
    → w.cores q ≡ some c
    → store_core c' a w ≡ done tt a (record w { cores = update w.cores q (some c') })
store_core-run c' a w e f = ground arith

-- What was written is read back at its place, and nothing changes elsewhere.
pub update_self {ℓ} : {A : Type ℓ} (f : ℕ → A) (p : ℕ) (x : A) → update f p x p ≡ x
update_self f p x = rw (==-refl p) refl

pub update_other {ℓ} : {A : Type ℓ} (f : ℕ → A) (p q : ℕ) (x : A) → q ≢ p → update f p x q ≡ f q
update_other f p q x other = rw (ne→== q p other) refl

-- ===== src/Subsystem/Device/Core.antt =====
-- `genz_core_structure_create` and `genz_core_structure_destroy`.
pub mod Laws
use emer_gen_z.Base.{
  ℕ, zero, suc, ◌==◌, Bool, true, false, ◌||◌, Option, none, some, List, [], ◌∷◌, if◌then◌else◌, ℤ,
  pos, error, enomem, einval, replicate,
}
use emer_gen_z.Fee.{Core, update}
use emer_gen_z.Subsystem.Class.{genz_cce_discrete_bridge, genz_cce_integrated_bridge}

-- the core structures and the destination tables on the kernel's heap, by their addresses
pub record CoreHeap : Type 0 where
  pub cores : ℕ → Option Core
  pub tables : ℕ → Bool

-- a pointer to a core structure, or an `ERR_PTR`
pub data CorePtr : Type 0 where
  valid : ℕ → CorePtr
  err_ptr : ℤ → CorePtr

-- a structure as `kzalloc` gives it
abbrev pub zeroed_core : Core
zeroed_core = record {
  cce = 0;
  base_c_class_str = replicate 32 0;
  max_interface = 0;
  max_data = 0;
  max_ctl = 0;
  cid0 = pos 0;
  sid0 = pos 0;
  pmcid = pos 0;
  pfmcid = pos 0;
  pfmsid = pos 0;
  sfmcid = pos 0;
  sfmsid = pos 0;
  comp_dest_table = 0;
}

-- both kinds of bridge have a destination table
unfoldable pub is_bridge : ℕ → Bool
is_bridge cce = (cce == genz_cce_discrete_bridge) || (cce == genz_cce_integrated_bridge)

abbrev pub put_core : ℕ → Option Core → CoreHeap → CoreHeap
put_core p c h = record h { cores = update h.cores p c }

abbrev pub put_table : ℕ → Bool → CoreHeap → CoreHeap
put_table p b h = record h { tables = update h.tables p b }

-- `none` where a freed structure is followed
unfoldable pub genz_core_structure_destroy : Option ℕ → CoreHeap → Option CoreHeap
genz_core_structure_destroy none h = some h
genz_core_structure_destroy (some p) h = elim (h.cores p) [
  | none ↦ none
  | some c ↦
      if c.comp_dest_table == 0
      then some (put_core p none h)
      else some (put_core p none (put_table c.comp_dest_table false h))
]

-- the failure of the second allocation: the first is given back
abbrev pub undo_core : ℕ → CoreHeap → Option (CorePtr × CoreHeap)
undo_core p h = elim (genz_core_structure_destroy (some p) h) [
  | none ↦ none
  | some h' ↦ some (err_ptr (error enomem), h')
]

-- the two `kzalloc`s give addresses, or nothing
unfoldable pub genz_core_structure_create :
    (core_alloc table_alloc : Option ℕ) → (cce : ℕ) → CoreHeap → Option (CorePtr × CoreHeap)
genz_core_structure_create core_alloc table_alloc cce h =
    if is_bridge cce
    then elim core_alloc [
      | none ↦ some (err_ptr (error enomem), h)
      | some p ↦ elim table_alloc [
        | none ↦ undo_core p (put_core p (some (record zeroed_core { cce = cce })) h)
        | some t ↦ some (
          valid p,
          put_core p (some (record zeroed_core { cce = cce; comp_dest_table = t }))
              (put_table t true h),
        )
      ]
    ]
    else some (err_ptr (error einval), h)

-- ===== src/Msix/Setup.antt =====
-- `FEE_ISR_setup` and `FEE_ISR_teardown`: the table of MSI-X entries, the vectors, and a handler on
-- each, with the ladder of `goto`s that undoes them.
pub mod Rollback
pub mod AllOrNothing
pub mod Teardown
use emer_gen_z.Base.{
  ℕ, zero, suc, ◌+◌, ◌-◌, ◌==◌, Bool, true, false, Option, none, some, List, [], ◌∷◌, ltb,
  if◌then◌else◌, length, ℤ, pos, negsuc, is_neg, nonzero, to_u16, to_u32, error, einval, enospc,
  enomem,
}
use emer_gen_z.Fee.{MsixEntry, Adapter, update}

-- The answers of the PCI core and of the allocator, which are not in the repository:
-- `pci_msix_vec_count`, whether `kzalloc` succeeds, `pci_alloc_irq_vectors` for a number of vectors,
-- `pci_irq_vector` of an index, and `request_irq` of an index and its vector.
pub record PciCore : Type 0 where
  pub msix_vec_count : ℤ
  pub kzalloc_succeeds : Bool
  pub alloc_irq_vectors : ℕ → ℤ
  pub irq_vector : ℕ → ℤ
  pub request_irq : (index vector : ℕ) → ℤ

-- What a device holds: live tables, whether its vectors are allocated, and how many handlers stand on
-- each vector.
pub record IrqState : Type 0 where
  pub tables : ℕ
  pub allocated : Bool
  pub handlers : ℕ → ℕ

-- `kzalloc` and `msix_entries[i].entry = i`
unfoldable pub make_table : (rounds i : ℕ) → List MsixEntry
make_table zero i = []
make_table (suc n) i = record { vector = 0; entry = to_u16 i } ∷ make_table n (i + 1)

pub data Assigned : Type 0 where
  assigned : List MsixEntry → Assigned
  failed : ℤ → Assigned

abbrev pub put_vector : MsixEntry → ℤ → Assigned → Assigned
put_vector e v (assigned es) = assigned (record e { vector = to_u32 v } ∷ es)
put_vector e v (failed ret) = failed ret

-- the loop on `pci_irq_vector`
unfoldable pub assign_vectors : PciCore → (i : ℕ) → List MsixEntry → Assigned
assign_vectors k i [] = assigned []
assign_vectors k i (e ∷ es) =
    let rest = put_vector e (k.irq_vector i) (assign_vectors k (i + 1) es) in
    if is_neg (k.irq_vector i) then failed (k.irq_vector i) else rest

-- the loop on `request_irq`: its last return value, `last_irq_index`, and the handlers
unfoldable pub request_irqs : PciCore → (i : ℕ) → List MsixEntry → (ℕ → ℕ) → ℤ × ℕ × (ℕ → ℕ)
request_irqs k i [] f = (pos 0, i, f)
request_irqs k i (e ∷ es) f =
    let rest = request_irqs k (i + 1) es (update f e.vector (f e.vector + 1)) in
    if nonzero (k.request_irq i e.vector) then (k.request_irq i e.vector, i, f) else rest

-- `free_irq` on the first entries; `none` is a read behind the table
unfoldable pub free_irqs : (rounds : ℕ) → List MsixEntry → (ℕ → ℕ) → Option (ℕ → ℕ)
free_irqs zero es f = some f
free_irqs (suc n) [] f = none
free_irqs (suc n) (e ∷ es) f = free_irqs n es (update f e.vector (f e.vector - 1))

abbrev pub Outcome : Type 0
Outcome = ℤ × Adapter × IrqState

-- `err_kfree_msix_entries`
abbrev pub drop_table : ℤ → Adapter → IrqState → Outcome
drop_table ret a q = (ret, record a { irq_private = none }, record q { tables = q.tables - 1 })

-- `err_pci_free_irq_vectors`
abbrev pub drop_vectors : ℤ → Adapter → IrqState → Outcome
drop_vectors ret a q = drop_table ret a (record q { allocated = false })

-- `err_free_completed_irqs`; the loop stays inside the table
abbrev pub drop_handlers : ℤ → (last : ℕ) → List MsixEntry → Adapter → IrqState → Outcome
drop_handlers ret last es a q = elim (free_irqs last es q.handlers) [
  | none ↦ drop_vectors ret a q
  | some f ↦ drop_vectors ret a (record q { handlers = f })
]

-- from the table with its vectors on
unfoldable pub attach_handlers : PciCore → List MsixEntry → Adapter → IrqState → Outcome
attach_handlers k es a q =
    let (ret, last, f) = request_irqs k 0 es q.handlers in
    if nonzero ret
    then drop_handlers ret last es (record a { irq_private = some es }) (record q { handlers = f })
    else (pos 0, record a { irq_private = some es }, record q { handlers = f })

-- from the allocated vectors on
unfoldable pub name_vectors : PciCore → List MsixEntry → Adapter → IrqState → Outcome
name_vectors k es a q = elim (assign_vectors k 0 es) [
  | failed ret ↦ drop_vectors ret a q
  | assigned es' ↦ attach_handlers k es' a q
]

-- from the table on; `ret < nvectors` compares an `int` that is not negative here
unfoldable pub alloc_vectors : PciCore → List MsixEntry → Adapter → IrqState → Outcome
alloc_vectors k es a q = elim (k.alloc_irq_vectors a.globals.n_events) [
  | negsuc n ↦ drop_table (negsuc n) a q
  | pos n ↦
      if ltb n a.globals.n_events
      then drop_vectors (error enospc) a (record q { allocated = true })
      else name_vectors k es a (record q { allocated = true })
]

unfoldable pub fee_isr_setup : PciCore → Adapter → IrqState → Outcome
fee_isr_setup k a q = elim k.msix_vec_count [
  | negsuc n ↦ (negsuc n, a, q)
  | pos n ↦
      if ltb n 16
      then (error einval, a, q)
      else if ltb n a.globals.n_events
      then (error enospc, a, q)
      else if k.kzalloc_succeeds
      then alloc_vectors k (make_table a.globals.n_events 0)
          (record a { irq_private = some (make_table a.globals.n_events 0) })
          (record q { tables = q.tables + 1 })
      else (error enomem, record a { irq_private = none }, q)
]

-- `none` is a read behind the table.
unfoldable pub fee_isr_teardown : Adapter → IrqState → Option (Adapter × IrqState)
fee_isr_teardown a q = elim a.irq_private [
  | none ↦ some (a, q)
  | some es ↦ elim (free_irqs (a.globals.n_clients + 2) es q.handlers) [
    | none ↦ none
    | some f ↦ some (
      record a { irq_private = none },
      record q { tables = q.tables - 1; allocated = false; handlers = f },
    )
  ]
]

-- ===== src/Subsystem/Class.antt =====
-- genz_class.c: the component classes, of which one is registered with the kernel.
pub mod Laws
use emer_gen_z.Base.{
  ℕ, zero, suc, ◌+◌, ◌-◌, ◌==◌, Bool, true, false, ◌&&◌, Option, none, some, List, [], ◌∷◌, ltb,
  leb, if◌then◌else◌, length, ℤ, pos, negsuc, nonzero,
}
use emer_gen_z.Text.{codes}

-- `genz_classes[].name`, without the sentinel; the index is the component class encoding
abbrev pub class_names : List (List ℕ)
class_names =
    codes "genz_fabric"
    ∷ codes "genz_memory_p2p"
    ∷ codes "genz_memory_explicit"
    ∷ codes "genz_switch_integrated"
    ∷ codes "genz_switch_enclosure"
    ∷ codes "genz_switch_fabric"
    ∷ codes "genz_processor"
    ∷ codes "genz_processor_nb"
    ∷ codes "genz_accelerator_nb_nc"
    ∷ codes "genz_accelerator_nb"
    ∷ codes "genz_accelerator_nc"
    ∷ codes "genz_accelerator"
    ∷ codes "genz_io_nb_nc"
    ∷ codes "genz_io_nb"
    ∷ codes "genz_io_nc"
    ∷ codes "genz_io"
    ∷ codes "genz_block"
    ∷ codes "genz_block_nb"
    ∷ codes "genz_tr"
    ∷ codes "genz_multiclass"
    ∷ codes "genz_bridge_discrete"
    ∷ codes "genz_bridge_integrated"
    ∷ codes "genz_test_board"
    ∷ codes "genz_lph"
    ∷ []

-- `enum genz_component_class_encodings`
abbrev pub genz_cce_discrete_bridge : ℕ
genz_cce_discrete_bridge = 0x14

abbrev pub genz_cce_integrated_bridge : ℕ
genz_cce_integrated_bridge = 0x15

abbrev pub genz_cce_lph : ℕ
genz_cce_lph = 0x17

-- the array has an element for the sentinel
unfoldable pub maxindex : ℕ
maxindex = length class_names + 1 - 2

-- A class is its index in the array.
unfoldable pub genz_class_getter : ℕ → Option ℕ
genz_class_getter index = if ltb 0 index && leb index maxindex then some index else none

-- the indices that `class_register` has taken, the latest first
abbrev pub Classes : Type 0
Classes = List ℕ

unfoldable pub class_unregister : ℕ → Classes → Classes
class_unregister i [] = []
class_unregister i (c ∷ cs) = let rest = class_unregister i cs in if c == i then cs else c ∷ rest

-- `while (--i >= 0) class_unregister(&genz_classes[i])`
unfoldable pub unregister_below : ℕ → Classes → Classes
unregister_below zero cs = cs
unregister_below (suc i) cs = unregister_below i (class_unregister i cs)

-- `for (i = 0; !i; i++)`, from an `i` on; `register` is what `class_register` returns. The pass at
-- `i` = 0 is the only one, so that two rounds are enough.
unfoldable pub register_classes : (register : ℕ → ℤ) → (rounds i : ℕ) → Classes → ℤ × Classes
register_classes register zero i cs = (pos 0, cs)
register_classes register (suc rounds) i cs =
    let rest = register_classes register rounds (i + 1) (i ∷ cs) in
    if i == 0
    then if nonzero (register i) then (register i, unregister_below i cs) else rest
    else (pos 0, cs)

unfoldable pub genz_classes_init : (register : ℕ → ℤ) → Classes → ℤ × Classes
genz_classes_init register cs = register_classes register 2 0 cs

-- the loop of `genz_classes_destroy`, with the same bound
unfoldable pub destroy_classes : (rounds i : ℕ) → Classes → Classes
destroy_classes zero i cs = cs
destroy_classes (suc rounds) i cs =
    let rest = destroy_classes rounds (i + 1) (class_unregister i cs) in if i == 0 then rest else cs

unfoldable pub genz_classes_destroy : Classes → Classes
genz_classes_destroy cs = destroy_classes 2 0 cs

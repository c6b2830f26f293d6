-- ===== src/Subsystem/Bus/Laws.antt =====
-- One bus for each id, and one registered device.
use emer_gen_z.Base.{
  ℕ, ◌≤◌, ◌≡◌, ◌≢◌, refl, ◌⊎◌, inl, inr, ◌==◌, true, false, Option, none, some, List, [], ◌∷◌, ◌++◌,
  ltb, ℤ, pos, negsuc, nonzero, error, ealready, arith, All, Bool-cases, Option-cases, ◌∙◌, ap, sym,
}
use mathlib.Core.Path.{subst}
use emer_gen_z.Subsystem.Bus.{
  BusInstance, maxbuses, potpourrid, bus_name, find_bus, BusEnv, add_bus, find_or_add_bus,
  genz_find_bus_by_pci_slotnum, Devices, register_genzdev, unregister_genzdev, alloc_genzdev,
  genz_init_one,
}

-- no bus of the list has the id
abbrev pub IsFresh : ℕ → List BusInstance → Type 0
IsFresh id bs = All (λ (b : BusInstance). b.id ≢ id) bs

-- a name that says the id, and an id in range
abbrev pub IsBus : BusInstance → Type 0
IsBus b = (b.id ≤ potpourrid) × (b.initname ≡ bus_name b.id)

-- all in order, and no id twice
abbrev pub AreBuses : List BusInstance → Type 0
AreBuses [] = Unit
AreBuses (b ∷ bs) = IsBus b × IsFresh b.id bs × AreBuses bs

find_bus-IsFresh : (id : ℕ) (bs : List BusInstance) → find_bus id bs ≡ none → IsFresh id bs
unfolding find_bus
find_bus-IsFresh id [] e = tt
find_bus-IsFresh id (b ∷ bs) e = ((λ q. ground arith), find_bus-IsFresh id bs (ground arith))

find_bus-finds :
    (id : ℕ) (bs : List BusInstance) (b : BusInstance) → find_bus id bs ≡ some b → b.id ≡ id
unfolding find_bus
find_bus-finds id [] b e = ground arith
find_bus-finds id (c ∷ bs) b e = elim (Bool-cases (id == c.id)) [
  | inl hit ↦ ground arith
  | inr miss ↦ find_bus-finds id bs b (rw miss at e)
]

IsFresh-append :
    (id : ℕ) (bs : List BusInstance) (b : BusInstance)
    → IsFresh id bs
    → b.id ≢ id
    → IsFresh id (bs ++ b ∷ [])
IsFresh-append id [] b f ne = (ne, tt)
IsFresh-append id (c ∷ bs) b f ne = (f.0, IsFresh-append id bs b f.1 ne)

append-AreBuses :
    (bs : List BusInstance) (b : BusInstance)
    → AreBuses bs
    → IsBus b
    → IsFresh b.id bs
    → AreBuses (bs ++ b ∷ [])
append-AreBuses [] b h ok f = (ok, tt, tt)
append-AreBuses (c ∷ bs) b h ok f =
    (h.0, IsFresh-append c.id bs b h.1 (λ e. f.0 (sym e)), append-AreBuses bs b h.2 ok f.1)

-- looking up behind an append
find_bus-append :
    (id : ℕ) (bs : List BusInstance) (b : BusInstance)
    → find_bus id bs ≡ none
    → b.id ≡ id
    → find_bus id (bs ++ b ∷ []) ≡ some b
unfolding find_bus
find_bus-append id [] b e same = ground arith
find_bus-append id (c ∷ bs) b e same = ground (arith, find_bus-append id bs b (ground arith) same)

none≢some : {p : ℕ} → none ≢ some p
none≢some e = ground arith

-- the bus that is added
abbrev new_bus : (p id : ℕ) → BusInstance
new_bus p id = record { address = p; id = id; initname = bus_name id }

add_bus-cases :
    (env : BusEnv) (id : ℕ) (bs : List BusInstance)
    → (add_bus env id bs ≡ (none, bs))
      ⊎ ((p : ℕ) × (add_bus env id bs ≡ (some p, bs ++ new_bus p id ∷ [])))
unfolding add_bus
add_bus-cases env id bs = elim (Option-cases env.kzalloc) [
  | inl e ↦ inl (rw e refl)
  | inr (p, e) ↦ elim (Bool-cases (nonzero env.device_add)) [
    | inl failed ↦ inl (rw e (rw failed refl))
    | inr worked ↦ inr (p, rw e (rw worked refl))
  ]
]

-- the three outcomes of a search for an id in range
data Outcome (id : ℕ) (bs : List BusInstance) (r : Option ℕ × List BusInstance) : Type 0 where
  hit : (b : BusInstance) → find_bus id bs ≡ some b → r ≡ (some b.address, bs) → Outcome id bs r
  missed : r ≡ (none, bs) → Outcome id bs r
  added : (p : ℕ) → find_bus id bs ≡ none → r ≡ (some p, bs ++ new_bus p id ∷ []) → Outcome id bs r

find_or_add_bus-Outcome :
    (env : BusEnv) (id : ℕ) (bs : List BusInstance) → Outcome id bs (find_or_add_bus env id bs)
unfolding find_or_add_bus
find_or_add_bus-Outcome env id bs = elim (Option-cases (find_bus id bs)) [
  | inr (b, e) ↦ hit b e (rw (e, find_or_add_bus) refl)
  | inl e ↦ elim (add_bus-cases env id bs) [
    | inl r ↦ missed (rw (e, find_or_add_bus) r)
    | inr (p, r) ↦ added p e (rw (e, find_or_add_bus) r)
  ]
]

-- what a search leaves, in each of the three
Outcome-AreBuses :
    (id : ℕ) (bs : List BusInstance) (r : Option ℕ × List BusInstance)
    → id ≤ potpourrid
    → Outcome id bs r
    → AreBuses bs
    → AreBuses r.1
Outcome-AreBuses id bs r small (hit b e q) h =
    subst (λ (r : Option ℕ × List BusInstance). AreBuses r.1) (sym q) h
Outcome-AreBuses id bs r small (missed q) h =
    subst (λ (r : Option ℕ × List BusInstance). AreBuses r.1) (sym q) h
Outcome-AreBuses id bs r small (added p e q) h =
    subst (λ (r : Option ℕ × List BusInstance). AreBuses r.1) (sym q)
      (append-AreBuses bs (new_bus p id) h (small, refl) (find_bus-IsFresh id bs e))

Outcome-again :
    (env : BusEnv) (id : ℕ) (bs : List BusInstance) (r : Option ℕ × List BusInstance) (p : ℕ)
    → Outcome id bs r
    → r.0 ≡ some p
    → find_or_add_bus env id r.1 ≡ r
unfolding find_or_add_bus
Outcome-again env id bs r p (hit b e q) some_p = rw q (rw (e, find_or_add_bus) refl)
Outcome-again env id bs r p (missed q) some_p =
    absurd (none≢some (sym (ap (λ (r : Option ℕ × List BusInstance). r.0) q) ∙ some_p))
Outcome-again env id bs r p (added p' e q) some_p =
    rw q (rw (find_bus-append id bs (new_bus p' id) e refl, find_or_add_bus) refl)

Outcome-fails :
    (id : ℕ) (bs : List BusInstance) (r : Option ℕ × List BusInstance)
    → Outcome id bs r
    → r.0 ≡ none
    → r.1 ≡ bs
Outcome-fails id bs r (hit b e q) none_back = ap (λ (r : Option ℕ × List BusInstance). r.1) q
Outcome-fails id bs r (missed q) none_back = ap (λ (r : Option ℕ × List BusInstance). r.1) q
Outcome-fails id bs r (added p e q) none_back =
    absurd (none≢some (sym none_back ∙ ap (λ (r : Option ℕ × List BusInstance). r.0) q))

-- a number that is too large, or the id that it stands for
in_range :
    (desired : ℤ)
    → ((env : BusEnv) (bs : List BusInstance)
        → genz_find_bus_by_pci_slotnum env desired bs ≡ (none, bs))
      ⊎ ((id : ℕ) × (id ≤ potpourrid)
          × ((env : BusEnv) (bs : List BusInstance)
              → genz_find_bus_by_pci_slotnum env desired bs ≡ find_or_add_bus env id bs))
unfolding genz_find_bus_by_pci_slotnum
in_range (negsuc n) = inr (potpourrid, omega arith, λ env bs. refl)
in_range (pos n) = elim (Bool-cases (ltb maxbuses n)) [
  | inl large ↦ inl (λ env bs. rw large refl)
  | inr small ↦ inr (n, ground arith, λ env bs. rw small refl)
]

module _ (env : BusEnv) (desired : ℤ) (buses : List BusInstance) where
  -- A search for a bus, whatever its outcome, keeps the ids of the buses in range, each with its
  -- name, and no id twice.
  pub genz_find_bus_by_pci_slotnum-AreBuses :
      AreBuses buses → AreBuses (genz_find_bus_by_pci_slotnum env desired buses).1
  genz_find_bus_by_pci_slotnum-AreBuses h = elim (in_range desired) [
    | inl large ↦ rw (large env buses) h
    | inr (id, small, same) ↦ rw (same env buses) (
        Outcome-AreBuses id buses (find_or_add_bus env id buses) small
          (find_or_add_bus-Outcome env id buses) h)
  ]

  -- A bus that was found is found again: the same one, whatever the kernel's memory, with the list of
  -- buses as it is.
  pub genz_find_bus_by_pci_slotnum-again :
      (env' : BusEnv) (p : ℕ)
      → (genz_find_bus_by_pci_slotnum env desired buses).0 ≡ some p
      → genz_find_bus_by_pci_slotnum env' desired (genz_find_bus_by_pci_slotnum env desired buses).1
        ≡ genz_find_bus_by_pci_slotnum env desired buses
  genz_find_bus_by_pci_slotnum-again env' p there = elim (in_range desired) [
    | inl large ↦ rw (large env buses) (large env' buses)
    | inr (id, small, same) ↦ rw (same env buses) (
        same env' (find_or_add_bus env id buses).1
        ∙ Outcome-again env' id buses (find_or_add_bus env id buses) p
            (find_or_add_bus-Outcome env id buses) (rw (same env buses) at there))
  ]

  -- Where no bus comes back, the list is as it was.
  pub genz_find_bus_by_pci_slotnum-fails :
      (genz_find_bus_by_pci_slotnum env desired buses).0 ≡ none
      → (genz_find_bus_by_pci_slotnum env desired buses).1 ≡ buses
  genz_find_bus_by_pci_slotnum-fails none_back = elim (in_range desired) [
    | inl large ↦ rw (large env buses) refl
    | inr (id, small, same) ↦ rw (same env buses) (
        Outcome-fails id buses (find_or_add_bus env id buses) (find_or_add_bus-Outcome env id buses)
          (rw (same env buses) at none_back))
  ]

-- A second device is refused while the first is registered, and only the first can take itself off:
-- after that the place is free.
pub register_genzdev-exclusive :
    (dev other : ℕ) (s : Devices)
    → s.the_one ≡ none
    → other ≢ dev
    → (register_genzdev other (register_genzdev dev s).1
        ≡ (error ealready, (register_genzdev dev s).1))
      × (unregister_genzdev other (register_genzdev dev s).1 ≡ (register_genzdev dev s).1)
      × ((unregister_genzdev dev (register_genzdev dev s).1).the_one ≡ none)
unfolding register_genzdev unregister_genzdev
register_genzdev-exclusive dev other s free different =
    let r : register_genzdev dev s ≡ (pos 0, record s { the_one = some dev }) =
      rw (free, register_genzdev) refl in
    let d : (dev == other) ≡ false = ground arith in
    let e : (dev == dev) ≡ true = ground arith in rw r (refl, rw d refl, rw e refl)

-- A probe registers its new device, or fails: where another one is registered, the new device stays
-- allocated all the same.
pub genz_init_one-second :
    (dev first : ℕ) (s : Devices)
    → s.the_one ≡ some first
    → genz_init_one (some dev) s ≡ (error ealready, record s { allocated = dev ∷ s.allocated })
unfolding genz_init_one alloc_genzdev register_genzdev
genz_init_one-second dev first s taken = ground arith

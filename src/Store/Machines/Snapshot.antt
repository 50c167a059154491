-- ===== src/Store/Machines/Snapshot.antt =====
-- The snapshot of the machines: all of them, sorted by identifier, whatever the map's order.
use mathlib.Core.List.Permᴰ
use happy_server_lite.Base.{
  str_lt_tri, str_lt_asym, str_lt_cotrans, ◌≡◌, ◌↔◌, In, In-Permᴰ, sort_slice-Permᴰ,
  sort_slice-eq_of_Permᴰ, sort_slice-IsSorted, IsSorted, IsOrder, Separated, Unique, OwnKeys,
  In-values_of_lookup, lookup_of_In-values, values, lookup, Permᴰ, Map, some, none, Option, List,
  Bool-cases, is_empty, inl, inr, true, false, refl, ◌⊎◌, ◌≢◌,
}
use happy_server_lite.Model.{Machine}
use happy_server_lite.Store.State.{Store, Status, success}
use happy_server_lite.Store.Machines.{id_below, snapshot_machines, snapshot_if_persistent}

-- Every machine is stored once, under its own identifier.
abbrev pub Keyed : Map Machine → Type 0
Keyed machines = Unique machines × OwnKeys (λ (m : Machine). m.id) machines

id_below-IsOrder : IsOrder id_below
id_below-IsOrder = record {
  asym = λ x y h. str_lt_asym x.id y.id h;
  cotrans = λ x y z h k. str_lt_cotrans x.id y.id z.id h k;
}

-- What is handed out to be written after an operation that ends with `status` and leaves the store
-- `s`: for a success on a store with a state file every machine that the store holds, sorted by
-- identifier, and nothing else.
abbrev pub Saves : Status → Store → Option (List Machine) → Type 0
Saves status s snapshot =
    ((status ≡ success)
      × (is_empty s.machines_state_file ≡ false)
      × (saved : List Machine) × (snapshot ≡ some saved)
      × Permᴰ saved (values s.machines_by_id)
      × IsSorted id_below saved)
    ⊎ (((status ≢ success) ⊎ (is_empty s.machines_state_file ≡ true)) × (snapshot ≡ none))

pub snapshot_if_persistent-Saves : (s : Store) → Saves success s (snapshot_if_persistent s)
unfolding snapshot_if_persistent snapshot_machines
snapshot_if_persistent-Saves s = elim (Bool-cases (is_empty s.machines_state_file)) [
  | inl no_file ↦ inr (inr no_file, rw no_file refl)
  | inr file ↦
      let machines = values s.machines_by_id in
      inl (
        refl,
        file,
        snapshot_machines s.machines_by_id,
        rw file refl,
        sort_slice-Permᴰ id_below machines,
        sort_slice-IsSorted id_below-IsOrder machines,
      )
]

module _ (machines : Map Machine) (v : Keyed machines) where
  -- Where machines are stored once and under their own identifiers, one is in the snapshot exactly if it is stored under its identifier.
  pub snapshot_machines-lookup :
      (m : Machine) → In m (snapshot_machines machines) ↔ (lookup m.id machines ≡ some m)
  unfolding snapshot_machines
  snapshot_machines-lookup m =
      let sorted = sort_slice-Permᴰ id_below (values machines) in
      (
        λ i. lookup_of_In-values (λ (t : Machine). t.id) m machines v.1 v.0 (In-Permᴰ m sorted i),
        λ h. In-Permᴰ m (Permᴰ.symm sorted) (In-values_of_lookup m.id m machines h),
      )

  machines-Separated : Separated id_below (values machines)
  machines-Separated x y i j p q =
      let a = lookup_of_In-values (λ (t : Machine). t.id) x machines v.1 v.0 i in
      let b = lookup_of_In-values (λ (t : Machine). t.id) y machines v.1 v.0 j in
      cc (a, b, str_lt_tri x.id y.id p q)

  -- Where machines are stored once and under their own identifiers, the snapshot is sorted by
  -- identifier, and it is the same whatever the order of the map.
  snapshot_machines-eq_of_Permᴰ :
      (others : Map Machine)
      → Permᴰ (values machines) (values others)
      → IsSorted id_below (snapshot_machines machines)
        × (snapshot_machines machines ≡ snapshot_machines others)
  unfolding snapshot_machines
  snapshot_machines-eq_of_Permᴰ others p = (
    sort_slice-IsSorted id_below-IsOrder (values machines),
    sort_slice-eq_of_Permᴰ id_below-IsOrder p machines-Separated,
  )

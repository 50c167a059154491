-- ===== src/Store/Persistence/Restart.antt =====
-- A restart finds the machines of the last snapshot.
use happy_server_lite.Base.{
  ℕ, GoString, is_empty, ◌==◌, ==_iff, ◌≡◌, ◌≢◌, ◌⊎◌, refl, sym, ap, ◌∙◌, Option, none, some, true,
  false, ◌||◌, inl, inr, Bool-cases, Option-cases, lookup, insert, lookup-insert, if◌then◌else◌,
  List, [], ◌∷◌, ◌++◌, arith, In, Map, key_of_lookup,
}
use happy_server_lite.Model.{Machine}
use happy_server_lite.Store.Machines.{snapshot_machines}
use happy_server_lite.Store.Machines.Snapshot.{Keyed, snapshot_machines-lookup}
use happy_server_lite.Store.Persistence.{
  PersistedMachinesFile, Disk, Calls, persist_machines_snapshot, load_machines, new_with_options,
  ReadResult, contents_of, read_disk,
}
use happy_server_lite.Store.Persistence.Atomic.{
  all_succeed, snapshot_file, persist_machines_snapshot-lookup,
}

-- The machines that a load takes over.
abbrev pub IsComplete : Machine → Type 0
IsComplete m = (is_empty m.id ≡ false) × (is_empty m.user_id ≡ false)

load_machines_missing :
    (j : GoString) (l : List Machine) (acc : Map Machine)
    → ((m : Machine) → In m l → m.id ≢ j)
    → lookup j (load_machines l acc) ≡ lookup j acc
unfolding load_machines
load_machines_missing j [] acc h = refl
load_machines_missing j (m ∷ l) acc h =
    let rest = λ (a : Map Machine). load_machines_missing j l a (λ x i. h x (inr i)) in
    let here = h m (inl refl) in
    elim (Bool-cases (is_empty m.id || is_empty m.user_id)) [
      | inl skip ↦ rw skip (rest acc)
      | inr keep ↦ rw keep (
          rest (insert m.id m acc)
          ∙ ground (arith, lookup-insert j m.id m acc, ==_iff m.id j, here))
    ]

load_machines_found :
    (x : Machine) (l : List Machine) (acc : Map Machine)
    → ((m : Machine) → In m l → m.id ≡ x.id → m ≡ x)
    → IsComplete x
    → In x l ⊎ (lookup x.id acc ≡ some x)
    → lookup x.id (load_machines l acc) ≡ some x
unfolding load_machines
load_machines_found x [] acc single ok (inl i) = elim i [ ]
load_machines_found x [] acc single ok (inr h) = h
load_machines_found x (m ∷ l) acc single ok h =
    let acc' = if is_empty m.id || is_empty m.user_id then acc else insert m.id m acc in
    let rest = load_machines_found x l acc' (λ y i. single y (inr i)) ok in
    elim (Bool-cases (m.id == x.id)) [
      | inl same ↦
          let p = single m (inl refl) ((==_iff m.id x.id).0 same) in
          let complete : is_empty m.id || is_empty m.user_id ≡ false = rw p (ground (arith, ok)) in
          rest (inr (ground (arith, complete, lookup-insert x.id m.id m acc, same, p)))
      | inr other ↦ elim h [
        | inl (inl p) ↦
            absurd (cc ((==_iff m.id x.id).1 (ap (λ (t : Machine). t.id) (sym p)), other))
        | inl (inr i) ↦ rest (inl i)
        | inr found ↦ rest (inr (ground (arith, lookup-insert x.id m.id m acc, other, found)))
      ]
    ]

module _ (machines : Map Machine) (j : GoString) (v : Keyed machines) where
  abbrev snapshot : List Machine
  snapshot = snapshot_machines machines

  at_id : (m : Machine) → In m snapshot → lookup m.id machines ≡ some m
  at_id m = (snapshot_machines-lookup machines v m).0

  snapshot_absent : lookup j machines ≡ none → (m : Machine) → In m snapshot → m.id ≢ j
  snapshot_absent e m i q = cc (at_id m i, ap (λ (k : GoString). lookup k machines) q, e)

  snapshot_single :
      (x : Machine)
      → lookup x.id machines ≡ some x
      → (m : Machine) → In m snapshot
      → m.id ≡ x.id
      → m ≡ x
  snapshot_single x e m i q = cc (at_id m i, ap (λ (k : GoString). lookup k machines) q, e)

  -- Loading the snapshot of complete machines into an empty map gives every lookup back.
  load_machines-snapshot :
      ((k : GoString) (m : Machine) → lookup k machines ≡ some m → IsComplete m)
      → lookup j (load_machines snapshot []) ≡ lookup j machines
  unfolding lookup
  load_machines-snapshot complete = elim (Option-cases (lookup j machines)) [
    | inl e ↦ load_machines_missing j snapshot [] (snapshot_absent e) ∙ sym e
    | inr (x, e) ↦
        let p : x.id ≡ j = key_of_lookup (λ (t : Machine). t.id) j x machines v.1 e in
        let stored : lookup x.id machines ≡ some x =
          ap (λ (k : GoString). lookup k machines) p ∙ e in
        ap (λ (k : GoString). lookup k (load_machines snapshot [])) (sym p)
        ∙ load_machines_found x snapshot [] (snapshot_single x stored) (complete j x e)
            (inl ((snapshot_machines-lookup machines v x).1 stored))
        ∙ sym e
  ]

is_empty-newline : (s : GoString) → is_empty (s ++ b'\n' ∷ []) ≡ false
is_empty-newline [] = refl
is_empty-newline (c ∷ s) = refl

new_with_options-contents :
    (unmarshal : GoString → Option PersistedMachinesFile) (path json : GoString)
    (machines : List Machine) (now : ℕ)
    → is_empty path ≡ false
    → unmarshal (json ++ b'\n' ∷ []) ≡ some (snapshot_file machines now)
    → (new_with_options unmarshal path (contents_of (json ++ b'\n' ∷ []))).machines_by_id
      ≡ load_machines machines []
unfolding new_with_options
new_with_options-contents unmarshal path json machines now named u =
    ground (arith, named, u, is_empty-newline json)

-- A snapshot of complete machines that is written with no failure, and that `json.Unmarshal` reads
-- back from what `json.MarshalIndent` wrote with a newline behind, is what a new store starts with.
pub restart-lookup :
    (marshal : PersistedMachinesFile → Option GoString)
    (unmarshal : GoString → Option PersistedMachinesFile) (path json : GoString)
    (machines : Map Machine) (now : ℕ) (c : Calls) (d : Disk) (j : GoString)
    → Keyed machines
    → ((k : GoString) (m : Machine) → lookup k machines ≡ some m → IsComplete m)
    → is_empty path ≡ false
    → all_succeed c ≡ true
    → c.tmp_name ≢ path
    → lookup c.tmp_name d ≡ none
    → marshal (snapshot_file (snapshot_machines machines) now) ≡ some json
    → unmarshal (json ++ b'\n' ∷ []) ≡ some (snapshot_file (snapshot_machines machines) now)
    → let d' = persist_machines_snapshot marshal path (snapshot_machines machines) now c d in
      lookup j (new_with_options unmarshal path (read_disk path d')).machines_by_id
      ≡ lookup j machines
restart-lookup marshal unmarshal path json machines now c d j v complete named fine other unused m
      u =
    let l = snapshot_machines machines in
    let d' = persist_machines_snapshot marshal path l now c d in
    let written : lookup path d' ≡ some (json ++ b'\n' ∷ []) = ground (
      arith,
      persist_machines_snapshot-lookup marshal path l now c d named other unused path,
      m,
      fine,
      ==_iff path path,
    ) in
    let read : read_disk path d' ≡ contents_of (json ++ b'\n' ∷ []) = ground (arith, written) in
    ap (λ (r : ReadResult). lookup j (new_with_options unmarshal path r).machines_by_id) read
    ∙ ap (lookup j) (new_with_options-contents unmarshal path json l now named u)
    ∙ load_machines-snapshot machines j v complete

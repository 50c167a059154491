-- ===== src/Store/Machines/Upsert.antt =====
-- What `UpsertMachine` does on every branch, and which snapshot it hands out.
use happy_server_lite.Base.{
  ℕ, GoString, is_empty, ◌==◌, ==_iff, ◌≡◌, ◌≢◌, refl, sym, ◌∙◌, subst, Option, List, none, some,
  true, false, inl, inr, Bool-cases, Option-cases, lookup, lookup-insert, arith,
}
use happy_server_lite.Model.{Machine}
use happy_server_lite.Store.State.{
  Store, ok, err, success, missing_machine_id, machine_belongs_to_another_user,
}
use happy_server_lite.Store.Machines.Snapshot.{Saves, snapshot_if_persistent-Saves}
use happy_server_lite.Store.Machines.Refreshing.{
  Has, Refreshes, Creates, refreshed, refreshed-cases, new_machine, new_machine-Creates,
}
use happy_server_lite.Store.Machines.{
  MachineRequest, Upserted, put_machine, refresh_machine, create_machine, upsert_machine,
}

-- The five ways an upsert can end: no identifier, a machine of another user, a machine that has all
-- that is asked for, a machine refreshed, and one created. The last two store the machine and hand out
-- the snapshot of the store that holds it.
pub data Ends (s : Store) (r : MachineRequest) (now : ℕ) (out : Upserted) : Type 0 where
  no_identifier :
      is_empty r.machine_id ≡ true → out ≡ (s, err missing_machine_id, none) → Ends s r now out
  foreign :
      (m : Machine)
      → lookup r.machine_id s.machines_by_id ≡ some m
      → m.user_id ≢ r.user_id
      → out ≡ (s, err machine_belongs_to_another_user, none)
      → Ends s r now out
  unchanged :
      (m : Machine)
      → lookup r.machine_id s.machines_by_id ≡ some m
      → m.user_id ≡ r.user_id
      → Has r m
      → out ≡ (s, ok (m, false), none)
      → Ends s r now out
  updated :
      (old m : Machine) (snapshot : Option (List Machine))
      → lookup r.machine_id s.machines_by_id ≡ some old
      → old.user_id ≡ r.user_id
      → Refreshes r now old m
      → Saves success (put_machine s r.machine_id m) snapshot
      → out ≡ (put_machine s r.machine_id m, ok (m, false), snapshot)
      → Ends s r now out
  created :
      (m : Machine) (snapshot : Option (List Machine))
      → lookup r.machine_id s.machines_by_id ≡ none
      → Creates r now m
      → Saves success (put_machine s r.machine_id m) snapshot
      → out ≡ (put_machine s r.machine_id m, ok (m, true), snapshot)
      → Ends s r now out

module _ (s : Store) (r : MachineRequest) (now : ℕ) where
  refresh_machine-Ends :
      (old : Machine)
      → lookup r.machine_id s.machines_by_id ≡ some old
      → old.user_id ≡ r.user_id
      → Ends s r now (refresh_machine s old r now)
  unfolding refresh_machine
  refresh_machine-Ends old e own = elim (refreshed-cases old r now) [
    | inl (changed, contents) ↦
        let m : Machine = record (refreshed old r).0 { updated_at = now } in
        updated old m _ e own contents (snapshot_if_persistent-Saves (put_machine s r.machine_id m))
          (ground (arith, changed))
    | inr (same, has) ↦ unchanged old e own has (rw same refl)
  ]

  create_machine-Ends :
      lookup r.machine_id s.machines_by_id ≡ none → Ends s r now (create_machine s r now)
  unfolding create_machine
  create_machine-Ends e =
      let m : Machine = new_machine r now in
      created m _ e (new_machine-Creates r now)
        (snapshot_if_persistent-Saves (put_machine s r.machine_id m)) refl

  -- Every upsert ends in one of five ways. Without an identifier, and for a machine of another user, it
  -- fails and changes nothing. For the caller's machine that has what is asked for, it changes nothing.
  -- Otherwise it stores the caller's machine, with a list of exactly the machines then stored to write
  -- where there is a state file: refreshed, with the metadata and the daemon state as asked for and the
  -- next version if that is new, and else as they were, and the key that is given, or else the old one;
  -- or, if there was none, created with the contents asked for and first versions.
  pub upsert_machine-Ends : Ends s r now (upsert_machine s r now)
  unfolding upsert_machine
  upsert_machine-Ends = elim (Bool-cases (is_empty r.machine_id)) [
    | inl no_id ↦ no_identifier no_id (ground (arith, no_id))
    | inr given ↦ elim (Option-cases (lookup r.machine_id s.machines_by_id)) [
      | inl e ↦
          let q : upsert_machine s r now ≡ create_machine s r now = ground (arith, given, e) in
          subst (Ends s r now) (sym q) (create_machine-Ends e)
      | inr (m, e) ↦ elim (Bool-cases (m.user_id == r.user_id)) [
        | inl own ↦
            let q : upsert_machine s r now ≡ refresh_machine s m r now =
              ground (arith, given, e, own) in
            subst (Ends s r now) (sym q)
              (refresh_machine-Ends m e ((==_iff m.user_id r.user_id).0 own))
        | inr other ↦
            foreign m e (λ p. cc ((==_iff m.user_id r.user_id).1 p, other))
              (ground (arith, given, e, other))
      ]
    ]
  ]

-- Nobody's upsert changes the owner of a machine that is there, or removes it.
upsert_machine_keeps_owners :
    (s : Store) (r : MachineRequest) (now : ℕ) (j : GoString) (m : Machine)
    → lookup j s.machines_by_id ≡ some m
    → let (s', result, snapshot) = upsert_machine s r now in
      (m' : Machine) × (lookup j s'.machines_by_id ≡ some m') × (m'.user_id ≡ m.user_id)
upsert_machine_keeps_owners s r now j m e = elim (upsert_machine-Ends s r now) [
  | no_identifier _ q ↦ rw q (m, e, refl)
  | foreign _ _ _ q ↦ rw q (m, e, refl)
  | unchanged _ _ _ _ q ↦ rw q (m, e, refl)
  | updated old m' _ found own contents _ q ↦ rw q (elim (Bool-cases (r.machine_id == j)) [
    | inl here ↦
        let same = (==_iff r.machine_id j).0 here in
        let there : lookup r.machine_id s.machines_by_id ≡ some m = rw same e in
        (
          m',
          ground (arith, lookup-insert j r.machine_id m' s.machines_by_id, here),
          contents.owner ∙ cc (found, there),
        )
    | inr there ↦
        (m, ground (arith, lookup-insert j r.machine_id m' s.machines_by_id, there, e), refl)
  ])
  | created m' _ missing _ _ q ↦ rw q (elim (Bool-cases (r.machine_id == j)) [
    | inl here ↦
        let same = (==_iff r.machine_id j).0 here in
        let there : lookup r.machine_id s.machines_by_id ≡ some m = rw same e in cc (missing, there)
    | inr there ↦
        (m, ground (arith, lookup-insert j r.machine_id m' s.machines_by_id, there, e), refl)
  ])
]

-- ===== src/Store/Machines/Refreshing.antt =====
-- What `UpsertMachine` makes of the contents of a machine.
use happy_server_lite.Base.{
  ℕ, GoString, is_empty, [], ◌∷◌, ◌≡◌, ◌≢◌, ◌⊎◌, refl, ap, sym, subst, ◌∙◌, Option, none, some,
  Bool, true, false, ◌||◌, inl, inr, Bool-cases, if◌then◌else◌,
}
use happy_server_lite.Model.{Machine}
use happy_server_lite.Store.Sessions.{first_version}
use happy_server_lite.Store.Machines.{
  MachineRequest, refresh_metadata, refresh_daemon_state, refresh_key,
}
use happy_server_lite.Store.Machines.Stages.{
  Same, Sets, SetsKey, asked_metadata, asked_state, refresh_metadata-Sets,
  refresh_daemon_state-Sets, refresh_key-SetsKey, Sets-kept, SetsKey-kept,
}

-- The machine `m` after a refresh that changes `old`: at least one field is set, and what a request does
-- not ask for stays.
pub record Refreshes (r : MachineRequest) (now : ℕ) (old m : Machine) : Type 0 where
  id : m.id ≡ old.id
  pub owner : m.user_id ≡ old.user_id
  created_at : m.created_at ≡ old.created_at
  updated_at : m.updated_at ≡ now
  metadata_set : Bool
  state_set : Bool
  key_set : Bool
  metadata :
      Sets
        (asked_metadata r.metadata)
        old.metadata
        old.metadata_version
        m.metadata
        m.metadata_version
        metadata_set
  daemon_state :
      Sets
        (asked_state r.daemon_state)
        old.daemon_state
        old.daemon_state_version
        m.daemon_state
        m.daemon_state_version
        state_set
  key : SetsKey r.data_encryption_key old.data_encryption_key m.data_encryption_key key_set
  some_set : (metadata_set || state_set || key_set) ≡ true

-- The request asks for nothing that the machine does not have, and gives no key.
abbrev pub Has : MachineRequest → Machine → Type 0
Has r m =
    Same (asked_metadata r.metadata) m.metadata
    × Same (asked_state r.daemon_state) m.daemon_state
    × (r.data_encryption_key ≡ none)

-- The machine of a request that finds none: the contents asked for, and version 1 of what is there.
pub record Creates (r : MachineRequest) (now : ℕ) (m : Machine) : Type 0 where
  id : m.id ≡ r.machine_id
  pub owner : m.user_id ≡ r.user_id
  created_at : m.created_at ≡ now
  updated_at : m.updated_at ≡ now
  metadata : m.metadata ≡ r.metadata
  metadata_version :
      ((r.metadata ≡ []) × (m.metadata_version ≡ 0))
      ⊎ ((r.metadata ≢ []) × (m.metadata_version ≡ 1))
  daemon_state : m.daemon_state ≡ r.daemon_state
  daemon_state_version :
      ((r.daemon_state ≡ none) × (m.daemon_state_version ≡ 0))
      ⊎ ((r.daemon_state ≢ none) × (m.daemon_state_version ≡ 1))
  key : m.data_encryption_key ≡ r.data_encryption_key

-- the record that `UpsertMachine` builds for a new machine
abbrev pub new_machine : MachineRequest → ℕ → Machine
new_machine r now = record {
  id = r.machine_id;
  user_id = r.user_id;
  metadata = r.metadata;
  metadata_version = if is_empty r.metadata then 0 else 1;
  daemon_state = r.daemon_state;
  daemon_state_version = first_version r.daemon_state;
  data_encryption_key = r.data_encryption_key;
  created_at = now;
  updated_at = now;
}

abbrev version_of : GoString → ℕ
version_of w = if is_empty w then 0 else 1

metadata-first : (w : GoString) → ((w ≡ []) × (version_of w ≡ 0)) ⊎ ((w ≢ []) × (version_of w ≡ 1))
metadata-first [] = inl (refl, refl)
metadata-first (x ∷ w) = inr (λ e. cc e, refl)

state-first :
    (d : Option GoString)
    → ((d ≡ none) × (first_version d ≡ 0)) ⊎ ((d ≢ none) × (first_version d ≡ 1))
state-first none = inl (refl, refl)
state-first (some d) = inr (λ e. cc e, refl)

pub new_machine-Creates : (r : MachineRequest) (now : ℕ) → Creates r now (new_machine r now)
new_machine-Creates r now = record {
  id = refl;
  owner = refl;
  created_at = refl;
  updated_at = refl;
  metadata = refl;
  metadata_version = metadata-first r.metadata;
  daemon_state = refl;
  daemon_state_version = state-first r.daemon_state;
  key = refl;
}

-- the three stages of a refresh together
abbrev pub refreshed : Machine → MachineRequest → Machine × Bool
refreshed m r =
    refresh_key r.data_encryption_key
      (refresh_daemon_state r.daemon_state (refresh_metadata r.metadata (m, false)))

all_down : (a b c : Bool) → (a || b || c) ≡ false → (a ≡ false) × (b ≡ false) × (c ≡ false)
all_down true b c h = cc h
all_down false true c h = cc h
all_down false false c h = (refl, refl, h)

or_all : (a b c : Bool) → (((false || a) || b) || c) ≡ (a || b || c)
or_all true b c = refl
or_all false true c = refl
or_all false false c = refl

same_contents :
    (m : Machine) (v : GoString) (n : ℕ) (w : Option GoString) (k : ℕ) (x : Option GoString)
    (flag : Bool)
    → v ≡ m.metadata
    → n ≡ m.metadata_version
    → w ≡ m.daemon_state
    → k ≡ m.daemon_state_version
    → x ≡ m.data_encryption_key
    → flag ≡ false
    → ◌≡◌ {A = Machine × Bool}
        (
          record m {
            metadata = v;
            metadata_version = n;
            daemon_state = w;
            daemon_state_version = k;
            data_encryption_key = x;
          },
          flag,
        )
        (m, false)
same_contents m v n w k x flag ev en ew ek ex down = rw (ev, en, ew, ek, ex, down) refl

-- A refresh either changes the machine and raises the flag, or does neither.
pub refreshed-cases :
    (m : Machine) (r : MachineRequest) (now : ℕ)
    → (((refreshed m r).1 ≡ true)
        × Refreshes r now m (record (refreshed m r).0 { updated_at = now }))
      ⊎ ((refreshed m r ≡ (m, false)) × Has r m)
refreshed-cases m r now =
    let (v, n, a, f, e1) = refresh_metadata-Sets r.metadata m false in
    let m1 : Machine = record m { metadata = v; metadata_version = n } in
    let (w, k, b, g, e2) = refresh_daemon_state-Sets r.daemon_state m1 (false || a) in
    let m2 : Machine = record m1 { daemon_state = w; daemon_state_version = k } in
    let (x, c, h, e3) = refresh_key-SetsKey r.data_encryption_key m2 ((false || a) || b) in
    let m3 : Machine = record m2 { data_encryption_key = x } in
    let done : refreshed m r ≡ (m3, a || b || c) =
      ap (λ p. refresh_key r.data_encryption_key (refresh_daemon_state r.daemon_state p)) e1
      ∙ ap (refresh_key r.data_encryption_key) e2
      ∙ e3
      ∙ ap (λ (t : Bool). (m3, t)) (or_all a b c) in
    elim (Bool-cases (a || b || c)) [
      | inl up ↦ inl (
        ap (λ (p : Machine × Bool). p.1) done ∙ up,
        subst (λ (p : Machine × Bool). Refreshes r now m (record p.0 { updated_at = now }))
            (sym done)
            (record {
              id = refl;
              owner = refl;
              created_at = refl;
              updated_at = refl;
              metadata_set = a;
              state_set = b;
              key_set = c;
              metadata = f;
              daemon_state = g;
              key = h;
              some_set = up;
            }),
      )
      | inr down ↦
          let (a0, b0, c0) = all_down a b c down in
          let (same, ev, en) = Sets-kept _ _ v _ n a f a0 in
          let (same_state, ew, ek) = Sets-kept _ _ w _ k b g b0 in
          let (no_key, ex) = SetsKey-kept _ _ x c h c0 in
          inr (
            done ∙ same_contents m v n w k x (a || b || c) ev en ew ek ex down,
            (same, same_state, no_key),
          )
    ]

-- ===== src/Store/Machines/Stages.antt =====
-- The three stages of a refresh in `UpsertMachine`: what each makes of its field.
use happy_server_lite.Base.{
  ℕ, GoString, is_empty, ◌==◌, ==_iff, ==_refl, [], ◌∷◌, ◌≡◌, ◌≢◌, ◌⊎◌, refl, ap, Option, none,
  some, Bool, true, false, ◌||◌, inl, inr, Bool-cases, inc64, if◌then◌else◌, arith,
}
use happy_server_lite.Model.{Machine}
use happy_server_lite.Store.Sessions.{differs}
use happy_server_lite.Store.Machines.{refresh_metadata, refresh_daemon_state, refresh_key}

-- Nothing is asked for, or what is there already.
abbrev pub Same {ℓ} : {A : Type ℓ} → Option A → A → Type ℓ
Same asked old = (asked ≡ none) ⊎ (asked ≡ some old)

-- A field with a version after a request: it stays as it is, or it becomes what is asked for with the
-- next version, and only then `set` is true.
abbrev pub Sets {ℓ} : {A : Type ℓ} → Option A → A → ℕ → A → ℕ → Bool → Type ℓ
Sets asked old old_version value version set =
    (Same asked old × (value ≡ old) × (version ≡ old_version) × (set ≡ false))
    ⊎ ((¬ Same asked old) × (asked ≡ some value) × (version ≡ inc64 old_version) × (set ≡ true))

-- A key has no version, and every key that is given counts as a change.
abbrev pub SetsKey : Option GoString → Option GoString → Option GoString → Bool → Type 0
SetsKey asked old value set =
    ((asked ≡ none) × (value ≡ old) × (set ≡ false))
    ⊎ ((asked ≢ none) × (value ≡ asked) × (set ≡ true))

-- The metadata asked for: the empty text asks for nothing.
abbrev pub asked_metadata : GoString → Option GoString
asked_metadata metadata = if is_empty metadata then none else some metadata

-- The daemon state asked for, if any; a request cannot remove it.
abbrev pub asked_state : Option GoString → Option (Option GoString)
asked_state none = none
asked_state (some d) = some (some d)

not_Same : {A : Type 0} (x old : A) → x ≢ old → ¬ Same (some x) old
not_Same x old h (inl e) = cc e
not_Same x old h (inr e) = h (cc e)

differs_iff :
    (old : Option GoString) (d : GoString)
    → (differs old d ≡ false → some d ≡ old) × (some d ≡ old → differs old d ≡ false)
unfolding differs
differs_iff none d = (λ h. cc h, λ h. cc h)
differs_iff (some x) d = (λ h. ground (arith, h, ==_iff x d), λ h. ground (arith, h, ==_refl x))

pub refresh_metadata-Sets :
    (w : GoString) (m : Machine) (c : Bool)
    → (v : GoString) × (n : ℕ) × (b : Bool) × Sets
        (asked_metadata w)
        m.metadata
        m.metadata_version
        v
        n
        b
      × (refresh_metadata w (m, c) ≡ (record m { metadata = v; metadata_version = n }, c || b))
unfolding refresh_metadata
refresh_metadata-Sets [] m c =
    (m.metadata, m.metadata_version, false, inl (inl refl, refl, refl, refl), ground arith)
refresh_metadata-Sets (x ∷ w) m c = elim (Bool-cases (x ∷ w == m.metadata)) [
  | inl same ↦
      let e = (==_iff (x ∷ w) m.metadata).0 same in
      (
        m.metadata,
        m.metadata_version,
        false,
        inl (inr (ap some e), refl, refl, refl),
        ground (arith, same),
      )
  | inr new ↦ (
    x ∷ w,
    inc64 m.metadata_version,
    true,
    inr (
      not_Same (x ∷ w) m.metadata (λ e. cc ((==_iff (x ∷ w) m.metadata).1 e, new)),
      refl,
      refl,
      refl,
    ),
    ground (arith, new),
  )
]

pub refresh_daemon_state-Sets :
    (d : Option GoString) (m : Machine) (c : Bool)
    → (v : Option GoString) × (n : ℕ) × (b : Bool) × Sets
        (asked_state d)
        m.daemon_state
        m.daemon_state_version
        v
        n
        b
      × (refresh_daemon_state d (m, c)
          ≡ (record m { daemon_state = v; daemon_state_version = n }, c || b))
unfolding refresh_daemon_state
refresh_daemon_state-Sets none m c =
    (m.daemon_state, m.daemon_state_version, false, inl (inl refl, refl, refl, refl), ground arith)
refresh_daemon_state-Sets (some d) m c = elim (Bool-cases (differs m.daemon_state d)) [
  | inl new ↦ (
    some d,
    inc64 m.daemon_state_version,
    true,
    inr (
      not_Same (some d) m.daemon_state (λ e. cc ((differs_iff m.daemon_state d).1 e, new)),
      refl,
      refl,
      refl,
    ),
    ground (arith, new),
  )
  | inr same ↦ (
    m.daemon_state,
    m.daemon_state_version,
    false,
    inl (inr (ap some ((differs_iff m.daemon_state d).0 same)), refl, refl, refl),
    ground (arith, same),
  )
]

pub refresh_key-SetsKey :
    (k : Option GoString) (m : Machine) (c : Bool)
    → (v : Option GoString) × (b : Bool) × SetsKey k m.data_encryption_key v b
      × (refresh_key k (m, c) ≡ (record m { data_encryption_key = v }, c || b))
unfolding refresh_key
refresh_key-SetsKey none m c = (m.data_encryption_key, false, inl (refl, refl, refl), ground arith)
refresh_key-SetsKey (some k) m c = (some k, true, inr (λ e. cc, refl, refl), ground arith)

pub Sets-kept :
    {A : Type 0} (asked : Option A) (old v : A) (n k : ℕ) (b : Bool)
    → Sets asked old n v k b
    → b ≡ false
    → Same asked old × (v ≡ old) × (k ≡ n)
Sets-kept asked old v n k b (inl (same, e, f, g)) h = (same, e, f)
Sets-kept asked old v n k b (inr (new, e, f, g)) h = cc (g, h)

pub SetsKey-kept :
    (asked old v : Option GoString) (b : Bool)
    → SetsKey asked old v b
    → b ≡ false
    → (asked ≡ none) × (v ≡ old)
SetsKey-kept asked old v b (inl (e, f, g)) h = (e, f)
SetsKey-kept asked old v b (inr (e, f, g)) h = cc (g, h)

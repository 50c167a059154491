-- ===== src/Store/Isolation.antt =====
-- What a user can read of the store of internal/store, and that an operation of another user leaves
-- it as it is.
pub mod Sessions
pub mod Machines
pub mod Artifacts
pub mod Accounts
use happy_server_lite.Base.{
  Bool, true, false, if◌then◌else◌, arith, ℕ, GoString, ◌≡◌, refl, ◌∙◌, Option, none, some, List,
  [], lookup, get_or, Option-cases, inl, inr,
}
use happy_server_lite.Model.{Session}
use happy_server_lite.Store.State.{Store}
use happy_server_lite.Store.Sessions.{get_session}
use happy_server_lite.Store.Messages.{list_messages, get_after}
use happy_server_lite.Store.Machines.{get_machine}
use happy_server_lite.Store.Artifacts.{get_artifact}
use happy_server_lite.Store.Accounts.{get_account_settings}

-- All that user `v` can read by identifier is the same in both stores.
pub record Untouched (v : GoString) (s s' : Store) : Type 0 where
  pub sessions : (j : GoString) → get_session s' v j ≡ get_session s v j
  pub messages :
      (j : GoString) (after limit : ℕ)
      → list_messages s' v j after limit ≡ list_messages s v j after limit
  pub machines : (j : GoString) → get_machine s' v j ≡ get_machine s v j
  pub artifacts : (j : GoString) → get_artifact s' v j ≡ get_artifact s v j
  pub settings : get_account_settings s' v ≡ get_account_settings s v

pub same_store-Untouched : (v : GoString) (s : Store) → Untouched v s s
same_store-Untouched v s = record {
  sessions = λ j. refl;
  messages = λ j after limit. refl;
  machines = λ j. refl;
  artifacts = λ j. refl;
  settings = refl;
}

-- A store that differs in sessions and messages is the same to a user who reads the same sessions,
-- with the same messages in each.
pub session_changes-Untouched :
    (v : GoString) (s s' : Store)
    → s'.machines_by_id ≡ s.machines_by_id
    → s'.artifacts_by_key ≡ s.artifacts_by_key
    → s'.account_settings_by_user_id ≡ s.account_settings_by_user_id
    → ((j : GoString) → get_session s' v j ≡ get_session s v j)
    → ((j : GoString) (sess : Session)
        → get_session s v j ≡ some sess
        → get_or j [] s'.messages ≡ get_or j [] s.messages)
    → Untouched v s s'
unfolding get_machine get_artifact get_account_settings list_messages get_after
session_changes-Untouched v s s' m a p same kept = record {
  sessions = same;
  messages = λ j after limit. elim (Option-cases (get_session s v j)) [
    | inl e ↦ ground (arith, same j, e)
    | inr (sess, e) ↦ ground (arith, same j, e, kept j sess e)
  ];
  machines = λ j. rw m refl;
  artifacts = λ j. rw a refl;
  settings = rw p refl;
}

-- An operation that branches leaves the store to a user as it is, if each branch does.
pub if-Untouched :
    {A : Type 0} (v : GoString) (s : Store) (test : Bool) (x y : Store × A)
    → Untouched v s x.0
    → Untouched v s y.0
    → Untouched v s (if test then x else y).0
if-Untouched v s true x y h k = h
if-Untouched v s false x y h k = k

pub Untouched-trans :
    (v : GoString) (s s' s'' : Store) → Untouched v s s' → Untouched v s' s'' → Untouched v s s''
Untouched-trans v s s' s'' f g = record {
  sessions = λ j. g.sessions j ∙ f.sessions j;
  messages = λ j after limit. g.messages j after limit ∙ f.messages j after limit;
  machines = λ j. g.machines j ∙ f.machines j;
  artifacts = λ j. g.artifacts j ∙ f.artifacts j;
  settings = g.settings ∙ f.settings;
}

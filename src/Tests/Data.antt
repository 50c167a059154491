-- ===== src/Tests/Data.antt =====
-- A small store: one session with one message, one machine and one artifact, all of one user.
use happy_server_lite.Base.{
  GoString, codes, [], ◌∷◌, none, some, true, false, ◌≡◌, refl, ◌==◌, ==_iff, lookup, arith, ap,
  sym, ◌∙◌,
}
use happy_server_lite.Model.{Session, SessionMessage, Machine, Artifact, Account}
use happy_server_lite.Store.State.{Store, empty_store, user_tag_key}
use happy_server_lite.Store.Sessions.{SessionRequest}
use happy_server_lite.Store.Sessions.Lifecycle.{Indexed}
use happy_server_lite.Store.Messages.Conversation.{Numbering}

abbrev pub alice : GoString
alice = codes "alice"

abbrev pub bob : GoString
bob = codes "bob"

abbrev pub sid_1 : GoString
sid_1 = codes "s1"

abbrev pub sid_2 : GoString
sid_2 = codes "s2"

abbrev pub session_1 : Session
session_1 = record {
  id = sid_1;
  user_id = alice;
  tag = codes "t";
  seq = 0;
  metadata = codes "meta";
  metadata_version = 1;
  agent_state = none;
  agent_state_version = 0;
  data_encryption_key = none;
  active = true;
  active_at = 10;
  created_at = 10;
  updated_at = 10;
  deleted = false;
}

abbrev message_1 : SessionMessage
message_1 = record {
  id = codes "x1";
  session_id = sid_1;
  seq = 1;
  content = codes "hello";
  created_at = 11;
  updated_at = 11;
}

abbrev pub mid_1 : GoString
mid_1 = codes "m1"

abbrev pub machine_1 : Machine
machine_1 = record {
  id = mid_1;
  user_id = alice;
  metadata = codes "meta";
  metadata_version = 1;
  daemon_state = none;
  daemon_state_version = 0;
  data_encryption_key = none;
  created_at = 12;
  updated_at = 12;
}

abbrev pub artifact_1 : Artifact
artifact_1 = record {
  id = codes "a1";
  user_id = alice;
  header = codes "head";
  header_version = 1;
  body = codes "body";
  body_version = 1;
  data_encryption_key = codes "key";
  seq = 1;
  created_at = 13;
  updated_at = 13;
  deleted = false;
}

abbrev pub account_1 : Account
account_1 = record { id = alice; public_key = codes "pk"; created_at = 9 }

abbrev pub store_1 : Store
store_1 = record (empty_store []) {
  accounts_by_public_key = (codes "pk", account_1) ∷ [];
  sessions_by_id = (sid_1, session_1) ∷ [];
  session_id_by_user_tag = (codes "alice|t", sid_1) ∷ [];
  machines_by_id = (mid_1, machine_1) ∷ [];
  artifacts_by_key = (codes "alice|a1", artifact_1) ∷ [];
  artifact_seq = 1;
  messages = (sid_1, message_1 ∷ []) ∷ [];
  seq = (sid_1, 1) ∷ [];
}

abbrev pub request_1 : SessionRequest
request_1 = record {
  user_id = alice;
  tag = codes "t";
  metadata = codes "new";
  agent_state = none;
  data_encryption_key = none;
}

abbrev pub request_2 : SessionRequest
request_2 = record request_1 { tag = codes "u" }

pub lookup-single :
    {V : Type 0} (k j : GoString) (v w : V) → lookup j ((k, v) ∷ []) ≡ some w → (k ≡ j) × (v ≡ w)
unfolding lookup
lookup-single k j v w h = ground (arith, h, ==_iff k j)

lookup-single_none :
    {V : Type 0} (k j : GoString) (v : V) → lookup j ((k, v) ∷ []) ≡ none → (k == j) ≡ false
unfolding lookup
lookup-single_none k j v h = ground (arith, h)

pub store_1-Indexed : Indexed store_1
unfolding lookup ◌==◌ user_tag_key
store_1-Indexed = record {
  own_id = λ sid sess h.
      let (k, v) = lookup-single sid_1 sid session_1 sess h in
      ap (λ (x : Session). x.id) (sym v) ∙ k;
  live_indexed = λ sid sess h live.
      let (k, v) = lookup-single sid_1 sid session_1 sess h in rw (← v, ← k) refl;
  indexed_live = λ k sid h.
      let (q, v) = lookup-single (codes "alice|t") k sid_1 sid h in
      rw (← v, ← q) (session_1, refl, refl, refl);
}

pub store_1-Numbering : Numbering store_1
unfolding lookup ◌==◌
store_1-Numbering = record {
  numbered = λ sid sess h live.
      let (k, v) = lookup-single sid_1 sid session_1 sess h in rw (← k) ((refl, tt), refl);
  unused = λ sid h. let n = lookup-single_none sid_1 sid session_1 h in rw n (refl, refl);
}

-- ===== src/Tests/Accounts.antt =====
-- The theorems on accounts and login requests at the small store.
use happy_server_lite.Base.{
  GoString, codes, List, [], ◌∷◌, none, some, true, ◌≡◌, ◌≢◌, refl, ◌==◌, ==_iff, arith, ap, sym,
  ◌∙◌,
}
use happy_server_lite.Tests.Data.{alice, bob, account_1, store_1, lookup-single}
use happy_server_lite.Model.{Account}
use happy_server_lite.Store.Accounts.{get_account_settings, update_account_settings}
use happy_server_lite.Store.Accounts.Settings.{settings_of}
use happy_server_lite.Store.Accounts.Identity.{account_of, Distinct}
use happy_server_lite.Store.Accounts.Requests.{Call, upsert, authorize, run, grant_at, after_calls}
use happy_server_lite.Store.Register.{write}
use happy_server_lite.Store.Accounts.Settings.{update_account_settings-write}
use happy_server_lite.Store.Accounts.Requests.{run-after_calls}

store_1-Distinct : Distinct store_1
store_1-Distinct = record {
  own_key = λ k a h. let (q, v) = lookup-single (codes "pk") k account_1 a h in rw (← v) q;
  own_id = λ k j a b h g e.
      let (q, v) = lookup-single (codes "pk") k account_1 a h in
      let (r, w) = lookup-single (codes "pk") j account_1 b g in sym q ∙ r;
}

alice_not_bob : alice ≢ bob
unfolding ◌==◌
alice_not_bob e = ground (arith, (==_iff alice bob).1 e)

bob-new : (k : GoString) (a : Account) → account_of store_1 k ≡ some a → a.id ≢ bob
bob-new k a h e =
    let (q, v) = lookup-single (codes "pk") k account_1 a h in
    absurd (alice_not_bob (ap (λ (x : Account). x.id) v ∙ e))

-- a client asks, and the account answers
abbrev calls_1 : List Call
calls_1 =
    upsert (codes "k") true (codes "q1") 20
    ∷ authorize (codes "k") (codes "answer") alice (codes "token") 21
    ∷ []

update_account_settings-write_example :
    let (s', outcome) = update_account_settings store_1 alice 0 (codes "dark") 20 in
    ((outcome, settings_of (get_account_settings s' alice))
      ≡ write none 0 (some (codes "dark")) (settings_of (get_account_settings store_1 alice)))
    × ((v : GoString) → v ≢ alice → get_account_settings s' v ≡ get_account_settings store_1 v)
update_account_settings-write_example =
    update_account_settings-write store_1 alice 0 (codes "dark") 20 refl

run-after_calls_example :
    grant_at (run store_1 calls_1) (codes "k")
    ≡ after_calls (codes "k") calls_1 (grant_at store_1 (codes "k"))
run-after_calls_example = run-after_calls store_1 calls_1 (codes "k")

-- ===== src/Store/Accounts/Identity.antt =====
-- Accounts: one for each public key, under an identifier of its own.
use happy_server_lite.Base.{
  ℕ, GoString, ==_iff, ◌≡◌, ◌≢◌, ◌↔◌, Option, none, some, true, lookup, lookup-insert, arith,
}
use happy_server_lite.Model.{Account}
use happy_server_lite.Store.State.{Store}
use happy_server_lite.Store.Accounts.{get_or_create_account}

abbrev pub account_of : Store → GoString → Option Account
account_of s public_key = lookup public_key s.accounts_by_public_key

-- An account is stored under its own key, and no two keys share an identifier.
pub record Distinct (s : Store) : Type 0 where
  pub own_key : (k : GoString) (a : Account) → account_of s k ≡ some a → a.public_key ≡ k
  pub own_id :
      (k j : GoString) (a b : Account)
      → account_of s k ≡ some a
      → account_of s j ≡ some b
      → a.id ≡ b.id
      → k ≡ j

module _ (s : Store) (public_key new_id : GoString) (now : ℕ) where
  -- The account that comes back is the one of the key from then on, it is the old one if there was
  -- one, it is reported as created exactly if there was none, and no other key is touched.
  get_or_create_account-account_of :
      let (s', acc, created) = get_or_create_account s public_key new_id now in
      (account_of s' public_key ≡ some acc)
      × ((a : Account) → account_of s public_key ≡ some a → acc ≡ a)
      × ((created ≡ true) ↔ (account_of s public_key ≡ none))
      × ((k : GoString) → k ≢ public_key → account_of s' k ≡ account_of s k)
  unfolding get_or_create_account
  get_or_create_account-account_of =
      let acc : Account = record { id = new_id; public_key = public_key; created_at = now } in
      let read = λ (k : GoString). lookup-insert k public_key acc s.accounts_by_public_key in
      (
        ground (arith, read public_key, ==_iff public_key public_key),
        λ a h. ground arith,
        (λ h. ground arith, λ h. ground arith),
        λ k h. ground (arith, read k, ==_iff public_key k),
      )

  -- With an identifier that no account has, creation keeps the accounts distinct: each is stored under
  -- its own key, and no two keys share an identifier.
  get_or_create_account-Distinct :
      ((k : GoString) (a : Account) → account_of s k ≡ some a → a.id ≢ new_id)
      → Distinct s
      → Distinct (get_or_create_account s public_key new_id now).0
  unfolding get_or_create_account
  get_or_create_account-Distinct fresh v =
      let acc : Account = record { id = new_id; public_key = public_key; created_at = now } in
      let read = λ (k : GoString). lookup-insert k public_key acc s.accounts_by_public_key in
      record {
        own_key = λ k a h. ground (arith, read k, ==_iff public_key k, v.own_key k a);
        own_id = λ k j a b p q e. ground (
          arith,
          read k,
          read j,
          ==_iff public_key k,
          ==_iff public_key j,
          v.own_id k j a b,
          fresh k a,
          fresh j b,
        );
      }

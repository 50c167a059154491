-- ===== src/Store/Accounts/Settings.antt =====
-- The settings of an account are a register that starts at version 0.
use happy_server_lite.Base.{
  ℕ, GoString, is_empty, ==_iff, ◌≡◌, ◌≢◌, false, Option, none, some, lookup-insert, get_or, inc64,
  arith,
}
use happy_server_lite.Store.State.{Store, AccountSettings}
use happy_server_lite.Store.Register.{Register, write}
use happy_server_lite.Store.Accounts.{get_account_settings, update_account_settings, no_settings}

-- A missing entry reads as version 0 with no settings.
abbrev pub settings_of : Option GoString × ℕ → Option (Register (Option GoString))
settings_of (settings, version) = some (record { version = version; value = settings })

-- For a user with an identifier, the reply and the new settings are those of a register write,
-- and the settings of every other user stay.
pub update_account_settings-write :
    (s : Store) (user_id : GoString) (expected : ℕ) (settings : GoString) (now : ℕ)
    → is_empty user_id ≡ false
    → let (s', outcome) = update_account_settings s user_id expected settings now in
      ((outcome, settings_of (get_account_settings s' user_id))
        ≡ write none expected (some settings) (settings_of (get_account_settings s user_id)))
      × ((v : GoString) → v ≢ user_id → get_account_settings s' v ≡ get_account_settings s v)
unfolding update_account_settings get_account_settings write
update_account_settings-write s user_id expected settings now named =
    let m = s.account_settings_by_user_id in
    let st : AccountSettings = record {
      settings = some settings;
      version = inc64 (get_or user_id no_settings m).version;
    } in
    (
      ground (arith, lookup-insert user_id user_id st m, ==_iff user_id user_id),
      λ v h. ground (arith, lookup-insert v user_id st m, ==_iff user_id v),
    )

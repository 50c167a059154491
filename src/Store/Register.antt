-- ===== src/Store/Register.antt =====
-- The contract of every update with an expected version: a register that is written only by a
-- client that names its current version.
use happy_server_lite.Base.{
  ℕ, ◌<◌, ◌≡◌, Option, none, some, eqb, inc64, inc64-ne, if◌then◌else◌, arith, two_64,
}
use happy_server_lite.Store.State.{Outcome, Status, success, version_mismatch, not_found}

pub record Register (A : Type 0) : Type 0 where
  pub version : ℕ
  pub value : A

module _ {A : Type 0} where
  abbrev outcome_of : Status → Register A → Outcome A
  outcome_of status r = record { status = status; version = r.version; current_value = r.value }

  -- One write, with the reply to the client. `empty` is the value that a missing register shows.
  unfoldable pub write : A → ℕ → A → Option (Register A) → Outcome A × Option (Register A)
  write empty expected a none =
      (record { status = not_found; version = 0; current_value = empty }, none)
  write empty expected a (some r) =
      let r' : Register A = record { version = inc64 r.version; value = a } in
      if eqb expected r.version
      then (outcome_of success r', some r')
      else (outcome_of version_mismatch r, some r)

  -- Of two writers that saw the same version, at most one succeeds.
  write_exclusive :
      (empty : A) (expected : ℕ) (a b : A) (r : Register A)
      → r.version < two_64
      → (write empty expected a (some r)).0.status ≡ success
      → (write empty expected b (write empty expected a (some r)).1).0
        ≡ outcome_of version_mismatch (record { version = inc64 expected; value = a })
  unfolding write
  write_exclusive empty expected a b r h ok = ground (arith, inc64-ne r.version h)

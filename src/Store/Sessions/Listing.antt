-- ===== src/Store/Sessions/Listing.antt =====
-- `ListSessions` shows the sessions that `GetSession` finds, the latest first.
use mathlib.Core.List.Permᴰ
use happy_server_lite.Base.{
  GoString, ◌≡◌, ◌↔◌, some, In, In-Permᴰ, In-filter_of, of_In-filter, sort_slice-Permᴰ,
  sort_slice-IsSorted, IsSorted, IsOrder, Unique, OwnKeys, In-values_of_lookup, lookup_of_In-values,
  filter, values, arith,
}
use happy_server_lite.Model.{Session}
use happy_server_lite.Store.State.{Store}
use happy_server_lite.Store.Sessions.{accessible, get_session, list_sessions, newer}
use happy_server_lite.Store.Sessions.Views.{get_session-found}

newer-IsOrder : IsOrder newer
newer-IsOrder = record { asym = λ x y h. ground arith; cotrans = λ x y z h k. ground arith }

-- Every session is stored once, under its own identifier.
abbrev pub Keyed : Store → Type 0
Keyed s = Unique s.sessions_by_id × OwnKeys (λ (x : Session). x.id) s.sessions_by_id

module _ (s : Store) (user_id : GoString) where
  -- Where sessions are stored once and under their own identifiers, a session is listed for a user
  -- exactly if the user can get it by its identifier.
  pub list_sessions-get_session :
      (x : Session)
      → Keyed s
      → In x (list_sessions s user_id) ↔ (get_session s user_id x.id ≡ some x)
  unfolding list_sessions get_session
  list_sessions-get_session x v =
      let visible = filter (accessible user_id) (values s.sessions_by_id) in
      let sorted = sort_slice-Permᴰ newer visible in
      (
        λ i.
            let (j, mine) =
              of_In-filter (accessible user_id) x (values s.sessions_by_id) (In-Permᴰ x sorted i) in
            let found = lookup_of_In-values (λ (t : Session). t.id) x s.sessions_by_id v.1 v.0 j in
            ground (arith, found, mine),
        λ h.
            let (found, mine) = get_session-found s user_id x.id x h in
            In-Permᴰ x (Permᴰ.symm sorted) (
              In-filter_of (accessible user_id) x (values s.sessions_by_id)
                (In-values_of_lookup x.id x s.sessions_by_id found) mine),
      )

  -- No listed session was updated later than one before it.
  list_sessions-IsSorted : IsSorted newer (list_sessions s user_id)
  unfolding list_sessions
  list_sessions-IsSorted = sort_slice-IsSorted newer-IsOrder _

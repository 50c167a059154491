-- ===== src/SocketIo/Connections/Admission.antt =====
-- Connections and rooms agree: what a connection names is where it may be, and it leaves nothing
-- behind when it goes.
use happy_server_lite.Base.{
  GoString, is_empty, ◌==◌, ==_iff, Option, none, some, Bool, true, false, not, ◌&&◌, ◌||◌, [], ◌∷◌,
  Map, filter, eqb, eqb_iff, ◌≡◌, ap, sym, subst, inl, inr, arith, Option-cases,
}
use happy_server_lite.Base.Pointers.{Pointer, contains, contains-remove}
use happy_server_lite.Store.State.{Store}
use happy_server_lite.Store.Sessions.{get_session}
use happy_server_lite.Store.Machines.{get_machine}
use happy_server_lite.SocketIo.Protocol.{parse_optional_namespace}
use happy_server_lite.SocketIo.Connections.{
  Server, Connected, user_scoped, session_scoped, machine_scoped, is_some, unregister_conn_locked,
  drop_methods, ConnectAuth, admit, scope_error, handle_connect,
}
use happy_server_lite.SocketIo.Connections.Rooms.{in_room, in_room-join_room, in_room-leave_room}

-- Whoever is in a room is connected under a user's id, and names that room: as its own user and with
-- the user scope, as its session, or as its machine.
pub record Placed (s : Server) : Type 0 where
  pub users :
      (k : GoString) (p : Pointer)
      → in_room s.room_users k p ≡ true
      → ((s.conn_of p).connected ≡ true)
        × (is_empty (s.conn_of p).user_id ≡ false)
        × ((s.conn_of p).user_id ≡ k)
        × (((s.conn_of p).client_type == user_scoped) ≡ true)
  pub sessions :
      (k : GoString) (p : Pointer)
      → in_room s.room_sessions k p ≡ true
      → ((s.conn_of p).connected ≡ true)
        × (is_empty (s.conn_of p).user_id ≡ false)
        × ((s.conn_of p).session_id ≡ k)
        × (is_empty k ≡ false)
  pub machines :
      (k : GoString) (p : Pointer)
      → in_room s.room_machines k p ≡ true
      → ((s.conn_of p).connected ≡ true)
        × (is_empty (s.conn_of p).user_id ≡ false)
        × ((s.conn_of p).machine_id ≡ k)
        × (is_empty k ≡ false)

-- no RPC method is left to a connection
abbrev pub owns_method : Pointer → Map Pointer → Bool
owns_method p [] = false
owns_method p ((j, q) ∷ methods) = eqb q p || owns_method p methods

owns_method-drop_methods :
    (c p : Pointer) (methods : Map Pointer)
    → owns_method p (drop_methods c methods) ≡ (not (eqb p c) && owns_method p methods)
unfolding drop_methods filter
owns_method-drop_methods c p [] = ground arith
owns_method-drop_methods c p ((j, q) ∷ methods) =
    ground (arith, owns_method-drop_methods c p methods)

same_conn : (s : Server) (p c : Pointer) → eqb p c ≡ true → p ≡ c
same_conn s p c e = ground (arith, e)

-- Where connections and rooms agree, a connection that is unregistered is in no room, owns no RPC
-- method and is registered no longer; every other connection is in the rooms it was in, and keeps its
-- methods and its registration.
pub unregister_conn_locked-rooms :
    (s : Server) (c : Pointer)
    → Placed s
    → (k : GoString) (p : Pointer)
    → (in_room (unregister_conn_locked s c).room_users k p
        ≡ (not (eqb p c) && in_room s.room_users k p))
      × (in_room (unregister_conn_locked s c).room_sessions k p
          ≡ (not (eqb p c) && in_room s.room_sessions k p))
      × (in_room (unregister_conn_locked s c).room_machines k p
          ≡ (not (eqb p c) && in_room s.room_machines k p))
      × (owns_method p (unregister_conn_locked s c).rpc_by_method
          ≡ (not (eqb p c) && owns_method p s.rpc_by_method))
      × (contains (unregister_conn_locked s c).conns p ≡ (not (eqb p c) && contains s.conns p))
unfolding unregister_conn_locked
unregister_conn_locked-rooms s c placed k p =
    let known = s.conn_of c in
    (
      ground (
        arith,
        in_room-leave_room s.room_users known.user_id c k p,
        placed.users k p,
        same_conn s p c,
        ==_iff known.user_id k,
      ),
      ground (
        arith,
        in_room-leave_room s.room_sessions known.session_id c k p,
        placed.sessions k p,
        same_conn s p c,
        ==_iff known.session_id k,
      ),
      ground (
        arith,
        in_room-leave_room s.room_machines known.machine_id c k p,
        placed.machines k p,
        same_conn s p c,
        ==_iff known.machine_id k,
      ),
      owns_method-drop_methods c p s.rpc_by_method,
      contains-remove c s.conns p,
    )

same_empty : (a k : GoString) → a ≡ k → is_empty a ≡ is_empty k
same_empty a k e = ap is_empty e

-- To admit a connection that is not connected keeps connections and rooms in agreement.
pub admit-Placed :
    (s : Server) (c : Pointer) (user_id : GoString) (auth : ConnectAuth)
    → (s.conn_of c).connected ≡ false
    → is_empty user_id ≡ false
    → Placed s
    → Placed (admit s c user_id auth)
unfolding admit
admit-Placed s c user_id auth fresh named placed = record {
  users = λ k p h. ground (
    arith,
    h,
    fresh,
    named,
    placed.users k p,
    in_room-join_room s.room_users user_id c k p,
    eqb_iff p c,
    eqb_iff c p,
    ==_iff user_id k,
  );
  sessions = λ k p h. ground (
    arith,
    h,
    fresh,
    named,
    placed.sessions k p,
    in_room-join_room s.room_sessions auth.session_id c k p,
    eqb_iff p c,
    eqb_iff c p,
    ==_iff auth.session_id k,
    same_empty auth.session_id k,
  );
  machines = λ k p h. ground (
    arith,
    h,
    fresh,
    named,
    placed.machines k p,
    in_room-join_room s.room_machines auth.machine_id c k p,
    eqb_iff p c,
    eqb_iff c p,
    ==_iff auth.machine_id k,
    same_empty auth.machine_id k,
  );
}

-- what an accepted connection has shown
pub record IsAdmitted (verify_token : GoString → Option GoString)
    (decode_auth : GoString → Option ConnectAuth) (store : Store) (s : Server) (c : Pointer)
    (payload : GoString) (t : Server) : Type 0 where
  pub user_id : GoString
  pub auth : ConnectAuth
  pub decoded : decode_auth (parse_optional_namespace payload).1 ≡ some auth
  pub token_checked : verify_token auth.token ≡ some user_id
  pub named : is_empty user_id ≡ false
  pub session_found :
      (auth.client_type == session_scoped) ≡ true
      → is_some (get_session store user_id auth.session_id) ≡ true
  pub machine_found :
      (auth.client_type == machine_scoped) ≡ true
      → is_some (get_machine store user_id auth.machine_id) ≡ true
  pub result : t ≡ admit s c user_id auth

module _ (verify_token : GoString → Option GoString) (decode_auth : GoString → Option ConnectAuth)
    (store : Store) where
  -- A connect that is accepted had a token that the check accepts for a user id that is not empty; a
  -- connection with the session scope named a session that its user can read, one with the machine
  -- scope a machine of its user; the rooms it is in afterwards are those of `admit`, and connections
  -- and rooms agree if they did before.
  pub handle_connect-IsAdmitted :
      (s : Server) (c : Pointer) (payload ns : GoString) (t : Server)
      → handle_connect verify_token decode_auth store s c payload ≡ Connected.accepted ns t
      → Placed s
      → IsAdmitted verify_token decode_auth store s c payload t × Placed t
  unfolding handle_connect scope_error
  handle_connect-IsAdmitted s c payload ns t h placed =
      let rest = (parse_optional_namespace payload).1 in
      elim (Option-cases (decode_auth rest)) [
        | inl d ↦ absurd (ground (arith, h, d))
        | inr (auth, d) ↦ elim (Option-cases (verify_token auth.token)) [
          | inl v ↦ absurd (ground (arith, h, d, v))
          | inr (user_id, v) ↦
              let named : is_empty user_id ≡ false = ground (arith, h, d, v) in
              let fresh : (s.conn_of c).connected ≡ false = ground (arith, h, d, v) in
              let scope : scope_error verify_token decode_auth store user_id auth ≡ none =
                ground (arith, h, d, v, named) in
              let result : t ≡ admit s c user_id auth = ground (arith, h, d, v, named, scope) in
              (
                record {
                  user_id = user_id;
                  auth = auth;
                  decoded = d;
                  token_checked = v;
                  named = named;
                  session_found = λ e. ground (arith, scope, e);
                  machine_found = λ e. ground (arith, scope, e);
                  result = result;
                },
                subst Placed (sym result) (admit-Placed s c user_id auth fresh named placed),
              )
        ]
      ]

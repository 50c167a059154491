-- ===== src/Http/Channel/Conversation.antt =====
-- What a user's channel does to the others.
use happy_server_lite.Base.{
  ℕ, GoString, codes, is_empty, ◌==◌, ==_iff, ◌≡◌, ◌≢◌, ◌⊎◌, refl, sym, ap, ◌∙◌, subst, Bool, true,
  false, not, ◌||◌, Option, none, some, List, [], ◌∷◌, ◌++◌, filter, if◌then◌else◌, In,
  of_In-filter, inl, inr, lookup-insert, arith, Bool-cases,
}
use happy_server_lite.Base.Pointers.{Pointer, add, contains, contains-remove}
use happy_server_lite.Json.{Json}
use happy_server_lite.Model.{SessionMessage}
use happy_server_lite.Hub.{Hub, is_empty_set, register, broadcast}
use happy_server_lite.Hub.Delivery.{
  members, NoEmpty, members-register, members-unregister, broadcast-members,
}
use happy_server_lite.Store.State.{Store, Result, ok, err}
use happy_server_lite.Store.Messages.{append_message}
use happy_server_lite.Store.Isolation.{Untouched, same_store-Untouched, Untouched-trans}
use happy_server_lite.Store.Isolation.Sessions.{append_message-Untouched}
use happy_server_lite.Http.Channel.{
  ClientMessage, Channel, pong, new_message, write_all, stored_with, on_message, on_messages,
  serve_channel,
}

module _ (user_of : Pointer → GoString) (write_ok : Pointer → Bool) where
  -- Each connection stands under its own user, and no user is kept with an empty set.
  pub record Ordered (h : Hub) : Type 0 where
    pub own : (u : GoString) (c : Pointer) → In c (members h u) → user_of c ≡ u
    pub no_empty : NoEmpty h

  -- the writes to the connections of a user
  abbrev pub written_to : GoString → List (Pointer × Json) → List (Pointer × Json)
  written_to v written = filter (λ w. user_of w.0 == v) written

  -- What a step leaves to the user `v`, and to the hub.
  pub record Serves (v : GoString) (ch ch' : Channel) : Type 0 where
    pub kept : Untouched v ch.store ch'.store
    pub joined : members ch'.hub v ≡ members ch.hub v
    heard : written_to v ch'.written ≡ written_to v ch.written
    ordered : Ordered ch'.hub

  Serves-refl : (v : GoString) (ch : Channel) → Ordered ch.hub → Serves v ch ch
  Serves-refl v ch o = record {
    kept = same_store-Untouched v ch.store;
    joined = refl;
    heard = refl;
    ordered = o;
  }

  Serves-trans : (v : GoString) (a b c : Channel) → Serves v a b → Serves v b c → Serves v a c
  Serves-trans v a b c f g = record {
    kept = Untouched-trans v a.store b.store c.store f.kept g.kept;
    joined = g.joined ∙ f.joined;
    heard = g.heard ∙ f.heard;
    ordered = g.ordered;
  }

  written_to-write_all :
      (u v : GoString) (cs : List Pointer) (out : Json) (written : List (Pointer × Json))
      → u ≢ v
      → ((c : Pointer) → In c cs → user_of c ≡ u)
      → written_to v (write_all user_of write_ok cs out written) ≡ written_to v written
  unfolding filter
  written_to-write_all u v [] out written other own = refl
  written_to-write_all u v (c ∷ cs) out written other own =
      written_to-write_all u v cs out ((c, out) ∷ written) other (λ d i. own d (inr i))
      ∙ ground (arith, own c (inl refl), other, ==_iff (user_of c) v)

  -- a set of which some were dropped, or that was left alone
  kept_own :
      (test : Bool) (c : Pointer) (w : GoString) (f : Pointer → Bool) (some_set set : List Pointer)
      → (test ≡ true → In c some_set → user_of c ≡ w)
      → (In c set → user_of c ≡ w)
      → In c (if test then filter f some_set else set)
      → user_of c ≡ w
  kept_own true c w f some_set set h k i = h refl (of_In-filter f c some_set i).0
  kept_own false c w f some_set set h k i = k i

  broadcast-Ordered :
      (h : Hub) (u : GoString) → Ordered h → Ordered (broadcast user_of write_ok h u).0
  broadcast-Ordered h u o = record {
    own = λ w c i.
        let (at, conns, closed, left) =
          broadcast-members user_of write_ok h u w (o.own u) o.no_empty in
        kept_own (u == w) c w write_ok (members h u) (members h w)
          (λ e j. o.own u c j ∙ (==_iff u w).0 e) (o.own w c) (subst (In c) at i);
    no_empty = (broadcast-members user_of write_ok h u u (o.own u) o.no_empty).3;
  }

  In-snoc : (c d : Pointer) (set : List Pointer) → In d (set ++ c ∷ []) → (d ≡ c) ⊎ In d set
  In-snoc c d [] (inl e) = inl e
  In-snoc c d [] (inr i) = elim i [ ]
  In-snoc c d (x ∷ set) (inl e) = inr (inl e)
  In-snoc c d (x ∷ set) (inr i) = elim (In-snoc c d set i) [ inl e ↦ inl e | inr j ↦ inr (inr j) ]

  In-add : (c d : Pointer) (set : List Pointer) → In d (add c set) → (d ≡ c) ⊎ In d set
  unfolding add
  In-add c d set i = elim (Bool-cases (contains set c)) [
    | inl e ↦ inr (rw e at i)
    | inr e ↦ In-snoc c d set (rw e at i)
  ]

  added_own :
      (test : Bool) (c d : Pointer) (w : GoString) (set : List Pointer)
      → (test ≡ true → user_of c ≡ w)
      → (In d set → user_of d ≡ w)
      → In d (if test then add c set else set)
      → user_of d ≡ w
  added_own true c d w set h k i = elim (In-add c d set i) [
    | inl e ↦ ap user_of e ∙ h refl
    | inr j ↦ k j
  ]
  added_own false c d w set h k i = k i

  add-nonempty : (c : Pointer) (set : List Pointer) → is_empty_set (add c set) ≡ false
  unfolding add contains
  add-nonempty c [] = refl
  add-nonempty c (d ∷ set) = ground arith

  register-NoEmpty : (h : Hub) (c : Pointer) → NoEmpty h → NoEmpty (register user_of h c)
  unfolding register
  register-NoEmpty h c n = record {
    at = λ v s e.
        let set = add c (members h (user_of c)) in
        ground (
          arith,
          e,
          lookup-insert v (user_of c) set h.connections,
          n.at v s,
          add-nonempty c (members h (user_of c)),
        );
  }

  register-Ordered : (h : Hub) (c : Pointer) → Ordered h → Ordered (register user_of h c)
  register-Ordered h c o = record {
    own = λ w d i.
        added_own (user_of c == w) c d w (members h w) (λ e. (==_iff (user_of c) w).0 e) (o.own w d)
          (subst (In d) (members-register user_of h c w) i);
    no_empty = register-NoEmpty h c o.no_empty;
  }

  stored_with-Serves :
      (v : GoString) (ch : Channel) (conn : Pointer) (sid : GoString)
      (out : Store × Result SessionMessage)
      → user_of conn ≢ v
      → Ordered ch.hub
      → Untouched v ch.store out.0
      → Serves v ch (stored_with user_of write_ok ch conn sid out)
  stored_with-Serves v ch conn sid (s', err e) other o h = Serves-refl v ch o
  stored_with-Serves v ch conn sid (s', ok stored) other o h =
      let u = user_of conn in
      let (at, conns, closed, left) =
        broadcast-members user_of write_ok ch.hub u v (o.own u) o.no_empty in
      record {
        kept = h;
        joined = ground (arith, at, other, ==_iff u v);
        heard =
            written_to-write_all u v _ (new_message sid stored) ch.written other
              (subst (λ cs. (c : Pointer) → In c cs → user_of c ≡ u) (sym conns) (o.own u));
        ordered = broadcast-Ordered ch.hub u o;
      }

  if-Serves :
      (v : GoString) (ch : Channel) (test : Bool) (x y : Channel)
      → Serves v ch x
      → Serves v ch y
      → Serves v ch (if test then x else y)
  if-Serves v ch true x y h k = h
  if-Serves v ch false x y h k = k

  pong-Serves :
      (v : GoString) (ch : Channel) (conn : Pointer)
      → user_of conn ≢ v
      → Ordered ch.hub
      → Serves v ch (record ch { written = (conn, pong) ∷ ch.written })
  unfolding filter
  pong-Serves v ch conn other o = record {
    kept = same_store-Untouched v ch.store;
    joined = refl;
    heard = ground (arith, other, ==_iff (user_of conn) v);
    ordered = o;
  }

  on_message-Serves :
      (v : GoString) (ch : Channel) (conn : Pointer) (msg : Option ClientMessage)
      (new_id : GoString) (now : ℕ)
      → user_of conn ≢ v
      → Ordered ch.hub
      → Serves v ch (on_message user_of write_ok ch conn msg new_id now)
  unfolding on_message
  on_message-Serves v ch conn none new_id now other o = Serves-refl v ch o
  on_message-Serves v ch conn (some msg) new_id now other o =
      let here = Serves-refl v ch o in
      let appended =
        append_message-Untouched (user_of conn) v other ch.store msg.sid msg.message new_id now in
      if-Serves v ch (msg.type_name == codes "ping") _ _ (pong-Serves v ch conn other o) (
        if-Serves v ch (not (msg.type_name == codes "message")) _ _ here (
          if-Serves v ch (is_empty msg.sid || is_empty msg.message) _ _ here (
            stored_with-Serves v ch conn msg.sid
              (append_message ch.store (user_of conn) msg.sid msg.message new_id now) other o
              appended)))

  on_messages-Serves :
      (v : GoString) (ch : Channel) (conn : Pointer)
      (msgs : List (Option ClientMessage × GoString × ℕ))
      → user_of conn ≢ v
      → Ordered ch.hub
      → Serves v ch (on_messages user_of write_ok ch conn msgs)
  unfolding on_messages
  on_messages-Serves v ch conn [] other o = Serves-refl v ch o
  on_messages-Serves v ch conn ((msg, new_id, now) ∷ rest) other o =
      let ch' = on_message user_of write_ok ch conn msg new_id now in
      let first = on_message-Serves v ch conn msg new_id now other o in
      Serves-trans v ch ch' _ first (on_messages-Serves v ch' conn rest other first.ordered)

  -- Whatever a client sends over its channel, from its registration to its end, all that another user
  -- can read of the store stays as it was, the other user's connections stay registered, and nothing is
  -- written to them; the client's own connection is registered no longer.
  pub serve_channel-isolated :
      (v : GoString) (ch : Channel) (conn : Pointer)
      (msgs : List (Option ClientMessage × GoString × ℕ))
      → user_of conn ≢ v
      → Ordered ch.hub
      → let ch' = serve_channel user_of write_ok ch conn msgs in
        Untouched v ch.store ch'.store
        × (members ch'.hub v ≡ members ch.hub v)
        × (written_to v ch'.written ≡ written_to v ch.written)
        × (contains (members ch'.hub (user_of conn)) conn ≡ false)
  unfolding serve_channel
  serve_channel-isolated v ch conn msgs other o =
      let u = user_of conn in
      let registered : Channel = record ch { hub = register user_of ch.hub conn } in
      let done = on_messages user_of write_ok registered conn msgs in
      let s = on_messages-Serves v registered conn msgs other (register-Ordered ch.hub conn o) in
      (
        s.kept,
        ground (
          arith,
          s.joined,
          members-register user_of ch.hub conn v,
          members-unregister user_of done.hub conn v,
          other,
          ==_iff u v,
        ),
        s.heard,
        ground (
          arith,
          members-unregister user_of done.hub conn u,
          contains-remove conn (members done.hub u) conn,
          ==_iff u u,
        ),
      )

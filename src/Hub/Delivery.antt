-- ===== src/Hub/Delivery.antt =====
-- Who is registered after each operation of the hub.
use happy_server_lite.Base.{
  GoString, ◌==◌, ==_iff, ◌≡◌, refl, some, Bool, false, not, lookup, get_or, lookup-insert,
  lookup-delete, List, [], ◌∷◌, filter, if◌then◌else◌, In, of_In-filter, inl, inr, Option-cases,
  arith,
}
use happy_server_lite.Base.Pointers.{Pointer, add, remove, remove_all, remove_all_failed}
use happy_server_lite.Hub.{Hub, is_empty_set, register, unregister, unregister_all, broadcast}

abbrev pub members : Hub → GoString → List Pointer
members h user_id = get_or user_id [] h.connections

-- No user is kept with an empty set.
pub record NoEmpty (h : Hub) : Type 0 where
  pub at :
      (user_id : GoString) (set : List Pointer)
      → lookup user_id h.connections ≡ some set
      → is_empty_set set ≡ false

remove-nil : (p : Pointer) → remove p [] ≡ []
unfolding remove filter
remove-nil p = refl

module _ (user_of : Pointer → GoString) where
  -- A registration adds the connection to its user's set, if it is not there, and touches no other.
  pub members-register :
      (h : Hub) (c : Pointer) (v : GoString)
      → members (register user_of h c) v
        ≡ (if user_of c == v then add c (members h v) else members h v)
  unfolding register
  members-register h c v =
      let set = add c (members h (user_of c)) in
      ground (arith, lookup-insert v (user_of c) set h.connections, ==_iff (user_of c) v)

  -- To unregister removes the connection from its user's set and touches no other set.
  pub members-unregister :
      (h : Hub) (c : Pointer) (v : GoString)
      → members (unregister user_of h c) v
        ≡ (if user_of c == v then remove c (members h v) else members h v)
  unfolding unregister
  members-unregister h c v = elim (Option-cases (lookup (user_of c) h.connections)) [
    | inl e ↦ ground (arith, e, ==_iff (user_of c) v, remove-nil c)
    | inr (set, e) ↦
        let left = remove c set in
        ground (
          arith,
          e,
          lookup-insert v (user_of c) left h.connections,
          lookup-delete v (user_of c) h.connections,
          ==_iff (user_of c) v,
        )
  ]

  unregister-NoEmpty : (h : Hub) (c : Pointer) → NoEmpty h → NoEmpty (unregister user_of h c)
  unfolding unregister
  unregister-NoEmpty h c n = record {
    at = λ v s e. elim (Option-cases (lookup (user_of c) h.connections)) [
      | inl q ↦ ground (arith, q, n.at v s)
      | inr (set, q) ↦
          let left = remove c set in
          ground (
            arith,
            q,
            lookup-insert v (user_of c) left h.connections,
            lookup-delete v (user_of c) h.connections,
            ==_iff (user_of c) v,
            n.at v s,
          )
    ];
  }

  members-unregister_all :
      (h : Hub) (cs : List Pointer) (u v : GoString)
      → ((c : Pointer) → In c cs → user_of c ≡ u)
      → members (unregister_all user_of h cs) v
        ≡ (if u == v then remove_all cs (members h v) else members h v)
  unfolding unregister_all remove_all
  members-unregister_all h [] u v o = ground arith
  members-unregister_all h (c ∷ cs) u v o = ground (
    arith,
    members-unregister_all (unregister user_of h c) cs u v (λ d i. o d (inr i)),
    members-unregister h c v,
    o c (inl refl),
  )

  unregister_all-NoEmpty :
      (h : Hub) (cs : List Pointer) → NoEmpty h → NoEmpty (unregister_all user_of h cs)
  unfolding unregister_all
  unregister_all-NoEmpty h [] n = n
  unregister_all-NoEmpty h (c ∷ cs) n =
      unregister_all-NoEmpty (unregister user_of h c) cs (unregister-NoEmpty h c n)

  -- When every connection of a user's set carries that user's id, a broadcast writes to exactly the
  -- members of the user's set, keeps of them those whose write succeeded, closes the others, touches
  -- no other user's set, and leaves no empty set behind.
  pub broadcast-members :
      (ok : Pointer → Bool) (h : Hub) (u v : GoString)
      → ((c : Pointer) → In c (members h u) → user_of c ≡ u)
      → NoEmpty h
      → (members (broadcast user_of ok h u).0 v
          ≡ (if u == v then filter ok (members h u) else members h v))
        × ((broadcast user_of ok h u).1 ≡ members h u)
        × ((broadcast user_of ok h u).2 ≡ filter (λ c. not (ok c)) (members h u))
        × NoEmpty (broadcast user_of ok h u).0
  unfolding broadcast
  broadcast-members ok h u v o n =
      let failed = filter (λ c. not (ok c)) (members h u) in
      (
        ground (
          arith,
          members-unregister_all h failed u v (λ c i. o c ((of_In-filter _ c (members h u) i).0)),
          remove_all_failed ok (members h u),
          ==_iff u v,
        ),
        refl,
        refl,
        unregister_all-NoEmpty h failed n,
      )

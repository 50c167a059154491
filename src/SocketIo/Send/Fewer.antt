-- ===== src/SocketIo/Send/Fewer.antt =====
-- How many connections are in a room, and that it does not grow.
use happy_server_lite.Base.{
  ℕ, ◌≤◌, ◌<◌, Bool, true, false, List, [], ◌∷◌, filter, length, ◌≡◌, refl, ◌∙◌, arith, eqb,
  Bool-cases, inl, inr,
}
use happy_server_lite.Base.Pointers.{Pointer, contains}
use happy_server_lite.SocketIo.Connections.{Server, unregister_conn_locked}
use happy_server_lite.SocketIo.Send.Serving.{
  present, Serving, unregister_conn_of, still_in, unregistered-present,
  unregister_conn_locked-Serving,
}

-- Later, the server still serves, no connection has changed its record, and nobody has
-- entered a room.
pub record Fewer (s s' : Server) : Type 0 where
  pub serving : Serving s'
  pub same : s'.conn_of ≡ s.conn_of
  pub sub : (p : Pointer) → present s' p ≡ true → present s p ≡ true

pub Fewer-refl : (s : Server) → Serving s → Fewer s s
Fewer-refl s serving = record { serving = serving; same = refl; sub = λ p h. h }

pub Fewer-trans : (s s' s'' : Server) → Fewer s s' → Fewer s' s'' → Fewer s s''
Fewer-trans s s' s'' f g = record {
  serving = g.serving;
  same = g.same ∙ f.same;
  sub = λ p h. f.sub p (g.sub p h);
}

-- To unregister a connection takes it out of every room, and lets nobody in.
pub unregister_conn_locked-Fewer :
    (s : Server) (c : Pointer)
    → Serving s
    → Fewer s (unregister_conn_locked s c) × (present (unregister_conn_locked s c) c ≡ false)
unregister_conn_locked-Fewer s c serving = (
  record {
    serving = unregister_conn_locked-Serving s c serving;
    same = unregister_conn_of s c;
    sub = λ p h. still_in _ _ _ (unregistered-present s c p serving.placed) h;
  },
  ground (arith, unregistered-present s c c serving.placed),
)

-- the connections of a list that are in a room
abbrev pub count : List Pointer → Server → ℕ
count known s = length (filter (present s) known)

length-filter_mono :
    (f g : Pointer → Bool) (qs : List Pointer)
    → ((p : Pointer) → f p ≡ true → g p ≡ true)
    → length (filter f qs) ≤ length (filter g qs)
unfolding filter
length-filter_mono f g [] h = omega arith
length-filter_mono f g (q ∷ qs) h = ground (arith, length-filter_mono f g qs h, h q)

length-filter_strict :
    (f g : Pointer → Bool) (c : Pointer) (qs : List Pointer)
    → ((p : Pointer) → f p ≡ true → g p ≡ true)
    → f c ≡ false
    → g c ≡ true
    → contains qs c ≡ true
    → length (filter f qs) < length (filter g qs)
unfolding filter contains
length-filter_strict f g c [] h out inside there = absurd (ground (arith, there))
length-filter_strict f g c (q ∷ qs) h out inside there = elim (Bool-cases (eqb q c)) [
  | inl e ↦
      let e' : q ≡ c = ground (arith, e) in
      let no' : f q ≡ false = rw e' out in
      let yes' : g q ≡ true = rw e' inside in ground (arith, no', yes', length-filter_mono f g qs h)
  | inr e ↦ ground (arith, e, there, h q, length-filter_strict f g c qs h out inside)
]

pub count_mono :
    (known : List Pointer) (s s' : Server) → Fewer s s' → count known s' ≤ count known s
count_mono known s s' f = length-filter_mono (present s') (present s) known f.sub

pub count_strict :
    (known : List Pointer) (s s' : Server) (c : Pointer)
    → Fewer s s'
    → present s' c ≡ false
    → present s c ≡ true
    → contains known c ≡ true
    → count known s' < count known s
count_strict known s s' c f out inside there =
    length-filter_strict (present s') (present s) c known f.sub out inside there

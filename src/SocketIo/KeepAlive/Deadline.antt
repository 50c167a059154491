-- ===== src/SocketIo/KeepAlive/Deadline.antt =====
-- A client that answers is kept, and one that does not is closed at its deadline.
use happy_server_lite.Base.{
  ℕ, ◌+◌, ◌-◌, Bool, true, false, ◌||◌, ltb, List, [], ◌∷◌, ◌≡◌, refl, arith, Bool-cases, inl, inr,
}
use happy_server_lite.SocketIo.KeepAlive.{
  KeepAlive, ping_timeout, ping_interval, close, send_ping, tick, mark_pong, ticks, answered_ticks,
}

-- One of the times is past the deadline.
abbrev pub any_after : ℕ → List ℕ → Bool
any_after deadline [] = false
any_after deadline (now ∷ times) = ltb deadline now || any_after deadline times

ticks_closed : (k : KeepAlive) (times : List ℕ) → k.closed ≡ true → (ticks k times).closed ≡ true
unfolding ticks tick
ticks_closed k [] c = c
ticks_closed k (now ∷ times) c = ground (arith, c, ticks_closed k times c)

-- A connection that waits for a pong which does not come is closed by a later round exactly if one
-- comes more than the timeout after the ping.
pub ticks-any_after :
    (k : KeepAlive) (times : List ℕ)
    → k.closed ≡ false
    → k.awaiting_pong ≡ true
    → (ticks k times).closed ≡ any_after (k.ping_sent_at + ping_timeout) times
unfolding ticks tick
ticks-any_after k [] o a = o
ticks-any_after k (now ∷ times) o a = elim (Bool-cases (ltb ping_timeout (now - k.ping_sent_at))) [
  | inl late ↦ ground (arith, o, a, late, ticks_closed (close k) times refl)
  | inr soon ↦ ground (arith, o, a, soon, ticks-any_after k times o a)
]

-- A connection that waits for no pong, whose pings can be queued and whose client answers between any
-- two rounds, is not closed by the rounds.
answered_ticks_open :
    (k : KeepAlive) (times : List ℕ)
    → k.closed ≡ false
    → k.awaiting_pong ≡ false
    → ((answered_ticks k times).closed ≡ false) × ((answered_ticks k times).awaiting_pong ≡ false)
unfolding answered_ticks tick mark_pong send_ping
answered_ticks_open k [] o a = (o, a)
answered_ticks_open k (now ∷ times) o a = elim (Bool-cases (ltb now k.next_ping_at)) [
  | inl early ↦ ground (arith, o, a, early, answered_ticks_open (mark_pong k) times o refl)
  | inr due ↦
      let next : KeepAlive = record k {
        awaiting_pong = false;
        ping_sent_at = now;
        next_ping_at = now + ping_interval;
      } in
      ground (arith, o, a, due, answered_ticks_open next times o refl)
]

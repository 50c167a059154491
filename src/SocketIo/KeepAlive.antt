-- ===== src/SocketIo/KeepAlive.antt =====
-- internal/socketio/server.go: `pingLoop` and `markPong`. A time is a number of nanoseconds, and the
-- outcome of `enqueueText` is an argument of a tick. A subtraction of times stops at 0, where the
-- source's is negative: neither is above the timeout.
pub mod Deadline
use happy_server_lite.Base.{
  ℕ, ◌+◌, ◌-◌, Bool, true, false, not, ◌&&◌, ltb, if◌then◌else◌, List, [], ◌∷◌,
}

-- `15 * time.Second`
abbrev pub ping_interval : ℕ
ping_interval = 15000000000

-- `45 * time.Second`
abbrev pub ping_timeout : ℕ
ping_timeout = 45000000000

pub record KeepAlive : Type 0 where
  pub awaiting_pong : Bool
  pub ping_sent_at : ℕ
  pub next_ping_at : ℕ
  pub closed : Bool

abbrev pub close : KeepAlive → KeepAlive
close k = record k { closed = true }

-- the ping's part of a round
unfoldable pub send_ping : KeepAlive → ℕ → Bool → KeepAlive
send_ping k now enqueued =
    let sent : KeepAlive = record k {
      awaiting_pong = true;
      ping_sent_at = now;
      next_ping_at = now + ping_interval;
    } in
    if enqueued then sent else close sent

-- One round of `pingLoop`.
unfoldable pub tick : KeepAlive → ℕ → Bool → KeepAlive
unfolding send_ping
tick k now enqueued =
    if k.closed
    then k
    else if k.awaiting_pong && ltb ping_timeout (now - k.ping_sent_at)
    then close k
    else if not k.awaiting_pong && not (ltb now k.next_ping_at)
    then send_ping k now enqueued
    else k

unfoldable pub mark_pong : KeepAlive → KeepAlive
mark_pong k = record k { awaiting_pong = false }

-- rounds with no answer from the client
unfoldable pub ticks : KeepAlive → List ℕ → KeepAlive
unfolding tick
ticks k [] = k
ticks k (now ∷ times) = ticks (tick k now true) times

-- rounds after each of which the client's pong comes
unfoldable pub answered_ticks : KeepAlive → List ℕ → KeepAlive
unfolding tick mark_pong
answered_ticks k [] = k
answered_ticks k (now ∷ times) = answered_ticks (mark_pong (tick k now true)) times

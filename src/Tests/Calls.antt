-- ===== src/Tests/Calls.antt =====
-- The theorems on keep-alive and acknowledgements.
use happy_server_lite.Base.{List, [], ◌∷◌, true, false, ◌≡◌, refl, arith, ℕ, ◌+◌}
use happy_server_lite.SocketIo.KeepAlive.{KeepAlive, ticks, ping_timeout}
use happy_server_lite.SocketIo.KeepAlive.Deadline.{any_after}
use happy_server_lite.SocketIo.Acks.{no_acks, Step, run}
use happy_server_lite.SocketIo.Acks.Once.{Consistent}
use happy_server_lite.Base.Pointers.{contains}
use happy_server_lite.SocketIo.KeepAlive.Deadline.{ticks-any_after}
use happy_server_lite.SocketIo.Acks.Once.{run-Consistent}

-- a ping sent at 10 and not answered
abbrev waiting_1 : KeepAlive
waiting_1 = record {
  awaiting_pong = true;
  ping_sent_at = 10;
  next_ping_at = 15000000010;
  closed = false;
}

abbrev idle_1 : KeepAlive
idle_1 = record waiting_1 { awaiting_pong = false }

abbrev rounds_1 : List ℕ
rounds_1 = 16000000000 ∷ 46000000000 ∷ []

no_acks-Consistent : Consistent no_acks
unfolding contains
no_acks-Consistent = record {
  waiting = λ id h. absurd (ground (arith, h));
  once = λ id. omega arith;
  begun = λ id h. refl;
}

-- a call, an answer, and the same answer again
abbrev steps_1 : List Step
steps_1 = Step.begins ∷ Step.resolves 1 [] ∷ Step.resolves 1 [] ∷ []

ticks-any_after_example :
    (ticks waiting_1 rounds_1).closed ≡ any_after (waiting_1.ping_sent_at + ping_timeout) rounds_1
ticks-any_after_example = ticks-any_after waiting_1 rounds_1 refl refl

run-Consistent_example : Consistent (run no_acks steps_1)
run-Consistent_example = run-Consistent no_acks steps_1 (omega arith) no_acks-Consistent

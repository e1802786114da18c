-- ===== src/NodeProxy/Tests.antt =====
-- Runs of the proxy: the client 3 of user 5 is bridged to node 1 over the node socket 7 as session 20,
-- and makes the call 30.
use virgo_fleet.Base.{ℕ, Bool, true, Option, none, some, ◌≡◌, refl, keys, lookup, insert, arith}
use virgo_fleet.NodeProxy.State.{Bridge, Call, Answer, Proxy, start}
use virgo_fleet.NodeProxy.Handlers.{Arrival, connects, client_says, node_replies, step}
use virgo_fleet.NodeProxy.Fairness.{answers, IsFair}
use virgo_fleet.NodeProxy.Calls.{step-IsFair}
use virgo_fleet.NodeProxy.Waiting.{time_outs, time_outs_settle}

abbrev registry : ℕ → Option ℕ
registry _ = some 7

abbrev connected : ℕ → Bool
connected _ = true

abbrev arrival : Arrival
arrival = record { client = 3; user_id = 5; node_id = 1; namespace = 9 }

abbrev bridged : Proxy
bridged = step registry connected (connects (some arrival) 3 20) start

abbrev calling : Proxy
calling = step registry connected (client_says 3 true 30 40 41) bridged

start-IsFair : IsFair start
unfolding lookup answers
start-IsFair = record {
  armed = λ c. refl;
  apart = λ c d a p q. cc p;
  waits = λ c a p. cc p;
  once = λ a. omega arith;
  unborn = λ a h. refl;
}

calling-IsFair : IsFair calling
unfolding step lookup insert
calling-IsFair =
    step-IsFair registry connected (client_says 3 true 30 40 41) bridged refl
      (step-IsFair registry connected (connects (some arrival) 3 20) start tt start-IsFair)

step-IsFair_example :
    IsFair (step registry connected (node_replies 7 20 30 (Answer.result 1)) calling)
step-IsFair_example =
    step-IsFair registry connected (node_replies 7 20 30 (Answer.result 1)) calling tt
      calling-IsFair

time_outs_settle_example :
    (answers 0 (time_outs (keys calling.timers) calling).log ≡ 1)
    × (lookup 30 (time_outs (keys calling.timers) calling).timers ≡ none)
unfolding step lookup insert
time_outs_settle_example = time_outs_settle calling calling-IsFair 30 0 refl

-- A reply of another session is not taken.
foreign_reply :
    (step registry connected (node_replies 7 21 30 (Answer.result 1)) calling).log ≡ calling.log
unfolding step lookup insert
foreign_reply = refl

abbrev bridge : Bridge
bridge = record { session_id = 20; node_socket = 7; node_id = 1; user_id = 5 }

abbrev call : Call
call = record { node_socket = 7; session_id = 20; ack = 0 }

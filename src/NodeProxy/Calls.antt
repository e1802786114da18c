-- ===== src/NodeProxy/Calls.antt =====
-- utils/node_proxy.js: each acknowledgement that a client hands over, through every event.
use virgo_fleet.Base.{
  ℕ, Bool, ◌&&◌, Option, none, ◌≡◌, refl, ap, ◌==◌, Option_keeps, if_keeps, each_inv, lookup, erase,
  ◌∙◌,
}
use virgo_fleet.NodeProxy.State.{
  Bridge, Answer, timed_out, Proxy, settle, calls_of, drop_session_calls,
}
use virgo_fleet.NodeProxy.Handlers.{
  node_reply, time_out, client_event, forget_client, client_leave, disconnect_node_socket_clients,
  Event, connects, node_says, node_replies, node_closes, call_times_out, client_says, client_leaves,
  node_is_lost, node_socket_is_lost, user_is_revoked, step,
}
use virgo_fleet.NodeProxy.Fairness.{
  answers, ack_of, IsFair, Alike-IsFair, settle-IsFair, answer-IsFair, place-IsFair,
}
use virgo_fleet.NodeProxy.Others.{
  like, untrack-Alike, sessions-Alike, node_clients-Alike, node_user-Alike, connect-Alike,
  node_event-Alike, node_close-Alike,
}

-- The handlers that end calls.
forget-IsFair : (client : ℕ) (b : Bridge) (s : Proxy) → IsFair s → IsFair (forget_client client b s)
unfolding forget_client drop_session_calls
forget-IsFair client b s f =
    Alike-IsFair (untrack-Alike dropped dropped (like dropped) b.node_id client) (
      each_inv IsFair settle settle-IsFair (calls_of b.node_socket b.session_id s.calls) gone
        (Alike-IsFair (record { calls = refl; timers = refl; next_ack = refl; log = λ a. refl }) f))
  where
    gone : Proxy
    gone = record s { sessions = erase b.session_id s.sessions; bridges = erase client s.bridges }

    dropped : Proxy
    dropped = drop_session_calls b.node_socket b.session_id gone

leave-IsFair :
    (is_connected : ℕ → Bool) (client : ℕ) (s : Proxy)
    → IsFair s
    → IsFair (client_leave is_connected client s)
unfolding client_leave answers
leave-IsFair is_connected client s f =
    Option_keeps IsFair (lookup client s.bridges) _ _ (λ _. f)
      λ b _.
        if_keeps IsFair (is_connected b.node_socket) _ _
          (λ _.
            Alike-IsFair (record { calls = refl; timers = refl; next_ack = refl; log = λ a. refl })
              (forget-IsFair client b s f))
          (λ _. forget-IsFair client b s f)

pub time_out-IsFair : (call_id : ℕ) (s : Proxy) → IsFair s → IsFair (time_out call_id s)
unfolding time_out
time_out-IsFair call_id s f =
    Option_keeps IsFair (lookup call_id s.timers) _ _ (λ _. f)
      λ a e. answer-IsFair call_id a timed_out s e f

reply-IsFair :
    (n sid call_id : ℕ) (answer : Answer) (s : Proxy)
    → IsFair s
    → IsFair (node_reply n sid call_id answer s)
unfolding node_reply
reply-IsFair n sid call_id answer s f =
    Option_keeps IsFair (lookup call_id s.calls) _ _ (λ _. f)
      λ call e.
        if_keeps IsFair (call.node_socket == n && call.session_id == sid) _ _
          (λ _. answer-IsFair call_id call.ack answer s (f.armed call_id ∙ ap ack_of e) f) (λ _. f)

event-IsFair :
    (is_connected : ℕ → Bool) (client : ℕ) (has_ack : Bool) (call_id event args : ℕ) (s : Proxy)
    → lookup call_id s.calls ≡ none
    → IsFair s
    → IsFair (client_event is_connected client has_ack call_id event args s)
unfolding client_event answers
event-IsFair is_connected client has_ack call_id event args s fresh f =
    Option_keeps IsFair (lookup client s.bridges) _ _ (λ _. f)
      λ b _.
        if_keeps IsFair (is_connected b.node_socket) _ _
          (λ _.
            if_keeps IsFair has_ack _ _ (λ _. place-IsFair b call_id event args s fresh f)
              (λ _.
                Alike-IsFair
                  (record { calls = refl; timers = refl; next_ack = refl; log = λ a. refl }) f))
          (λ _. f)

-- The id of a new call is not in use: it is random.
abbrev pub IsFresh : Event → Proxy → Type 0
IsFresh (client_says client has_ack call_id event args) st = lookup call_id st.calls ≡ none
IsFresh _ st = Unit

module _ (registry : ℕ → Option ℕ) (is_connected : ℕ → Bool) where
  -- Through every event, where a new call has an id that is not in use: a call waits exactly where its
  -- timer is armed, no two calls have one acknowledgement, an acknowledgement that waits was never
  -- called, and none is called twice or before it was handed over.
  pub step-IsFair :
      (e : Event) (s : Proxy) → IsFresh e s → IsFair s → IsFair (step registry is_connected e s)
  unfolding step
  step-IsFair (connects arrival client sid) s h f =
      Alike-IsFair (connect-Alike registry is_connected arrival client sid s) f
  step-IsFair (node_says n sid event args) s h f =
      Alike-IsFair (node_event-Alike n sid event args s) f
  step-IsFair (node_replies n sid cid answer) s h f = reply-IsFair n sid cid answer s f
  step-IsFair (node_closes n sid) s h f = Alike-IsFair (node_close-Alike n sid s) f
  step-IsFair (call_times_out cid) s h f = time_out-IsFair cid s f
  step-IsFair (client_says client has_ack cid event args) s h f =
      event-IsFair is_connected client has_ack cid event args s h f
  step-IsFair (client_leaves client) s h f = leave-IsFair is_connected client s f
  step-IsFair (node_is_lost node_id) s h f = Alike-IsFair (node_clients-Alike node_id s) f
  step-IsFair (node_socket_is_lost n) s h f =
      unfold disconnect_node_socket_clients in
      Alike-IsFair (sessions-Alike n s.sessions s s (like s)) f
  step-IsFair (user_is_revoked node_id user) s h f = Alike-IsFair (node_user-Alike node_id user s) f

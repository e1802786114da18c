-- ===== src/NodeProxy/Others.antt =====
-- utils/node_proxy.js: the handlers that leave the calls alone.
use virgo_fleet.Base.{
  ℕ, Bool, Option, none, some, List, [], ◌∷◌, refl, ◌==◌, Option_keeps, if_keeps, each, each_inv,
  lookup, erase, members,
}
use virgo_fleet.NodeProxy.State.{Session, Proxy, track_client, untrack_client, client_of}
use virgo_fleet.NodeProxy.Handlers.{
  Arrival, bridge_client, connect, node_event, node_close, disconnect, disconnect_node_clients,
  disconnect_sessions, disconnect_if_user, disconnect_node_user,
}
use virgo_fleet.NodeProxy.Fairness.{answers, Alike}

pub like : (s : Proxy) → Alike s s
like s = record { calls = refl; timers = refl; next_ack = refl; log = λ a. refl }

-- The handlers that leave the calls alone.
module _ (s t : Proxy) (e : Alike s t) where
  pub disconnect-Alike : (client : ℕ) → Alike s (disconnect client t)
  unfolding answers
  disconnect-Alike client = record {
    calls = e.calls;
    timers = e.timers;
    next_ack = e.next_ack;
    log = e.log;
  }

  pub track-Alike : (node_id client : ℕ) → Alike s (track_client node_id client t)
  unfolding track_client
  track-Alike node_id client = record {
    calls = e.calls;
    timers = e.timers;
    next_ack = e.next_ack;
    log = e.log;
  }

  pub untrack-Alike : (node_id client : ℕ) → Alike s (untrack_client node_id client t)
  unfolding untrack_client
  untrack-Alike node_id client =
      Option_keeps (Alike s) (lookup node_id t.clients_by_node) _ _ (λ _. e)
        λ _ _. record { calls = e.calls; timers = e.timers; next_ack = e.next_ack; log = e.log }

  pub if_user-Alike : (user_id client : ℕ) → Alike s (disconnect_if_user user_id client t)
  unfolding disconnect_if_user
  if_user-Alike user_id client =
      Option_keeps (Alike s) (lookup client t.bridges) _ _ (λ _. e)
        λ b _. if_keeps (Alike s) (b.user_id == user_id) _ _ (λ _. disconnect-Alike client) (λ _. e)

pub sessions-Alike :
    (n : ℕ) (entries : List (ℕ × Session)) (s t : Proxy)
    → Alike s t
    → Alike s (disconnect_sessions n entries t)
unfolding disconnect_sessions
sessions-Alike n [] s t e = e
sessions-Alike n ((sid, x) ∷ rest) s t e =
    sessions-Alike n rest s _
      (if_keeps (Alike s) (x.node_socket == n) _ _ (λ _. disconnect-Alike s t e x.client) (λ _. e))

pub node_clients-Alike : (node_id : ℕ) (s : Proxy) → Alike s (disconnect_node_clients node_id s)
unfolding disconnect_node_clients
node_clients-Alike node_id s =
    Option_keeps (Alike s) (lookup node_id s.clients_by_node) _ _ (λ _. like s)
      λ clients _.
        told (each_inv (Alike s) disconnect (λ c t e. disconnect-Alike s t e c) clients s (like s))
  where
    told :
        {t : Proxy}
        → Alike s t
        → Alike s (record t { clients_by_node = erase node_id t.clients_by_node })
    told e = record { calls = e.calls; timers = e.timers; next_ack = e.next_ack; log = e.log }

pub node_user-Alike :
    (node_id : ℕ) (user : Option ℕ) (s : Proxy) → Alike s (disconnect_node_user node_id user s)
unfolding disconnect_node_user answers
node_user-Alike node_id none s = like s
node_user-Alike node_id (some user_id) s = record {
  calls = told.calls;
  timers = told.timers;
  next_ack = told.next_ack;
  log = told.log;
}
  where
    told : Alike s (each (disconnect_if_user user_id) (members node_id s.clients_by_node) s)
    told =
        each_inv (Alike s) (disconnect_if_user user_id) (λ c t e. if_user-Alike s t e user_id c)
          (members node_id s.clients_by_node) s (like s)

pub connect-Alike :
    (registry : ℕ → Option ℕ) (is_connected : ℕ → Bool) (arrival : Option Arrival) (client sid : ℕ)
    (s : Proxy)
    → Alike s (connect registry is_connected arrival client sid s)
unfolding connect bridge_client track_client answers
connect-Alike registry is_connected none client sid s = disconnect-Alike s s (like s) client
connect-Alike registry is_connected (some a) client sid s =
    Option_keeps (Alike s) (registry a.node_id) _ _ (λ _. disconnect-Alike s s (like s) client)
      λ n _.
        if_keeps (Alike s) (is_connected n) _ _
          (λ _. record { calls = refl; timers = refl; next_ack = refl; log = λ x. refl })
          (λ _. disconnect-Alike s s (like s) client)

pub node_event-Alike : (n sid event args : ℕ) (s : Proxy) → Alike s (node_event n sid event args s)
unfolding node_event answers
node_event-Alike n sid event args s =
    Option_keeps (Alike s) (client_of n sid s) _ _ (λ _. like s)
      λ c _. record { calls = refl; timers = refl; next_ack = refl; log = λ x. refl }

pub node_close-Alike : (n sid : ℕ) (s : Proxy) → Alike s (node_close n sid s)
unfolding node_close answers
node_close-Alike n sid s =
    Option_keeps (Alike s) (client_of n sid s) _ _ (λ _. like s)
      λ c _. record { calls = refl; timers = refl; next_ack = refl; log = λ x. refl }

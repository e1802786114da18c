-- ===== src/NodeProxy/Waiting.antt =====
-- utils/node_proxy.js: what becomes of the calls that wait, by their timers and by the end of their
-- client.
use virgo_fleet.Base.{
  ℕ, ◌+◌, ◌≤◌, Bool, true, false, ◌&&◌, none, some, List, [], ◌∷◌, ◌≡◌, refl, ap, inl, inr, ◌==◌,
  ==_iff, ==_refl, if◌then◌else◌, Bool-cases, Option-cases, if_keeps, each, each_inv, has,
  has-delete, keys, lookup, erase, delete, lookup-insert, lookup-erase, lookup-keys, members, arith,
  ◌∙◌,
}
use virgo_fleet.NodeProxy.State.{
  Call, Bridge, Proxy, settle, calls_of, drop_session_calls, untrack_client,
}
use virgo_fleet.NodeProxy.Handlers.{time_out, forget_client, client_leave}
use virgo_fleet.NodeProxy.Fairness.{answers, IsFair}
use virgo_fleet.NodeProxy.Calls.{time_out-IsFair}

module _ (c c' a : ℕ) (s : Proxy) where
  answers-time_out : answers a s.log ≤ answers a (time_out c' s).log
  unfolding time_out answers
  answers-time_out = ground arith

  time_out_own : lookup c s.timers ≡ some a → answers a (time_out c s).log ≡ answers a s.log + 1
  unfolding time_out answers
  time_out_own h = rw (time_out, h) (ground arith)

  time_out_other : (c' == c) ≡ false → lookup c (time_out c' s).timers ≡ lookup c s.timers
  unfolding time_out
  time_out_other h = ground (arith, h, lookup-erase c' c s.timers)

  time_out_gone : lookup c s.timers ≡ none → lookup c (time_out c' s).timers ≡ none
  unfolding time_out
  time_out_gone h = ground (arith, h, lookup-erase c' c s.timers)

  time_out_ends : lookup c (time_out c s).timers ≡ none
  unfolding time_out
  time_out_ends = ground (arith, lookup-erase c c s.timers)

-- The timers of the calls fire, one after the other.
unfoldable pub time_outs : List ℕ → Proxy → Proxy
unfolding each time_out
time_outs ids s = each time_out ids s

answers-time_outs :
    (ids : List ℕ) (a : ℕ) (s : Proxy) → answers a s.log ≤ answers a (time_outs ids s).log
unfolding time_outs each
answers-time_outs [] a s = omega arith
answers-time_outs (c ∷ ids) a s =
    omega (arith, answers-time_out c c a s, answers-time_outs ids a (time_out c s))

time_outs_answer :
    (ids : List ℕ) (c a : ℕ) (s : Proxy)
    → has ids c ≡ true
    → lookup c s.timers ≡ some a
    → 1 ≤ answers a (time_outs ids s).log
unfolding time_outs each
time_outs_answer [] c a s h e = cc h
time_outs_answer (d ∷ ids) c a s h e = elim (Bool-cases (d == c)) [
  | inl q ↦
      let own : lookup d s.timers ≡ some a = rw ((==_iff d c).0 q) e in
      omega (arith, time_out_own d d a s own, answers-time_outs ids a (time_out d s))
  | inr q ↦
      time_outs_answer ids c a (time_out d s) (ground (arith, h, q)) (time_out_other c d a s q ∙ e)
]

time_outs_gone :
    (ids : List ℕ) (c : ℕ) (s : Proxy)
    → lookup c s.timers ≡ none
    → lookup c (time_outs ids s).timers ≡ none
unfolding time_outs each
time_outs_gone [] c s e = e
time_outs_gone (d ∷ ids) c s e = time_outs_gone ids c (time_out d s) (time_out_gone c d c s e)

time_outs_end :
    (ids : List ℕ) (c : ℕ) (s : Proxy) → has ids c ≡ true → lookup c (time_outs ids s).timers ≡ none
unfolding time_outs each
time_outs_end [] c s h = cc h
time_outs_end (d ∷ ids) c s h = elim (Bool-cases (d == c)) [
  | inl q ↦
      let own : d ≡ c = (==_iff d c).0 q in
      time_outs_gone ids c (time_out d s) (rw (← own) (time_out_ends d d d s))
  | inr q ↦ time_outs_end ids c (time_out d s) (ground (arith, h, q))
]

time_outs-IsFair : (ids : List ℕ) (s : Proxy) → IsFair s → IsFair (time_outs ids s)
unfolding time_outs
time_outs-IsFair ids s f = each_inv IsFair time_out time_out-IsFair ids s f

waits-keys : (c a : ℕ) (m : List (ℕ × ℕ)) → lookup c m ≡ some a → has (keys m) c ≡ true
waits-keys c a m e = elim (Bool-cases (has (keys m) c)) [
  | inl h ↦ h
  | inr h ↦ ground (arith, e, lookup-keys c m h)
]

-- When the timers of all calls that wait have fired, each acknowledgement that waited has been called
-- exactly once, and no call waits.
pub time_outs_settle :
    (s : Proxy)
    → IsFair s
    → (c a : ℕ) → lookup c s.timers ≡ some a
    → (answers a (time_outs (keys s.timers) s).log ≡ 1)
      × (lookup c (time_outs (keys s.timers) s).timers ≡ none)
time_outs_settle s f c a e = (
  omega (
    arith,
    time_outs_answer (keys s.timers) c a s (waits-keys c a s.timers e) e,
    (time_outs-IsFair (keys s.timers) s f).once a,
  ),
  time_outs_end (keys s.timers) c s (waits-keys c a s.timers e),
)

-- The calls of a session are found.
calls_of_finds :
    (n sid c : ℕ) (call : Call) (m : List (ℕ × Call))
    → lookup c m ≡ some call
    → (call.node_socket == n && call.session_id == sid) ≡ true
    → has (calls_of n sid m) c ≡ true
unfolding calls_of lookup
calls_of_finds n sid c call [] e h = cc e
calls_of_finds n sid c call ((d, x) ∷ m) e h = elim (Bool-cases (d == c)) [
  | inl q ↦ ground (arith, q, e, h)
  | inr q ↦ ground (arith, q, e, calls_of_finds n sid c call m, h)
]

settle_reads :
    (d c : ℕ) (s : Proxy)
    → lookup c (settle d s).calls ≡ (if d == c then none else lookup c s.calls)
unfolding settle
settle_reads d c s = lookup-erase d c s.calls

settles_read :
    (ids : List ℕ) (c : ℕ) (s : Proxy)
    → lookup c (each settle ids s).calls ≡ (if has ids c then none else lookup c s.calls)
unfolding each
settles_read [] c s = refl
settles_read (d ∷ ids) c s = settles_read ids c (settle d s) ∙ ground (arith, settle_reads d c s)

settles_keep :
    (ids : List ℕ) (s : Proxy)
    → ((each settle ids s).sessions ≡ s.sessions)
      × ((each settle ids s).bridges ≡ s.bridges)
      × ((each settle ids s).clients_by_node ≡ s.clients_by_node)
unfolding each settle
settles_keep [] s = (refl, refl, refl)
settles_keep (d ∷ ids) s = settles_keep ids (settle d s)

untracked :
    (node_id client : ℕ) (s : Proxy)
    → has (members node_id (untrack_client node_id client s).clients_by_node) client ≡ false
unfolding untrack_client
untracked node_id client s = elim (Option-cases (lookup node_id s.clients_by_node)) [
  | inl e ↦ rw (untrack_client, e, members, e)
  | inr (cs, e) ↦ rw (
    untrack_client,
    e,
    members,
    lookup-insert node_id node_id (delete client cs) s.clients_by_node,
    ==_refl node_id,
    has-delete client cs client,
    ==_refl client,
  )
]

untrack_keeps :
    (node_id client : ℕ) (s : Proxy)
    → ((untrack_client node_id client s).sessions ≡ s.sessions)
      × ((untrack_client node_id client s).calls ≡ s.calls)
      × ((untrack_client node_id client s).bridges ≡ s.bridges)
unfolding untrack_client
untrack_keeps node_id client s = (ground arith, ground arith, ground arith)

abbrev Cleared : Bridge → ℕ → ℕ → Proxy → Type 0
Cleared b client c t =
    (lookup c t.calls ≡ none)
    × (lookup b.session_id t.sessions ≡ none)
    × (lookup client t.bridges ≡ none)
    × (has (members b.node_id t.clients_by_node) client ≡ false)

forget-Cleared :
    (client : ℕ) (b : Bridge) (s : Proxy) (c : ℕ) (call : Call)
    → lookup c s.calls ≡ some call
    → (call.node_socket == b.node_socket && call.session_id == b.session_id) ≡ true
    → Cleared b client c (forget_client client b s)
unfolding forget_client drop_session_calls
forget-Cleared client b s c call e h = (
  ap (lookup c) kept.1
      ∙ settles_read ids c gone
      ∙ rw (calls_of_finds b.node_socket b.session_id c call s.calls e h),
  ap (lookup b.session_id) (kept.0 ∙ settled.0)
      ∙ rw (lookup-erase b.session_id b.session_id s.sessions, ==_refl b.session_id),
  ap (lookup client) (kept.2 ∙ settled.1)
      ∙ rw (lookup-erase client client s.bridges, ==_refl client),
  untracked b.node_id client dropped,
)
  where
    gone : Proxy
    gone = record s { sessions = erase b.session_id s.sessions; bridges = erase client s.bridges }

    ids : List ℕ
    ids = calls_of b.node_socket b.session_id s.calls

    dropped : Proxy
    dropped = drop_session_calls b.node_socket b.session_id gone

    kept :
        ((untrack_client b.node_id client dropped).sessions ≡ dropped.sessions)
        × ((untrack_client b.node_id client dropped).calls ≡ dropped.calls)
        × ((untrack_client b.node_id client dropped).bridges ≡ dropped.bridges)
    kept = untrack_keeps b.node_id client dropped

    settled :
        ((each settle ids gone).sessions ≡ gone.sessions)
        × ((each settle ids gone).bridges ≡ gone.bridges)
        × ((each settle ids gone).clients_by_node ≡ gone.clients_by_node)
    settled = settles_keep ids gone

-- When a bridged client leaves, nothing of it stays: no call that waits over its session, no session,
-- no handler, and no place among the clients of the node.
client_leave_clears :
    (is_connected : ℕ → Bool) (client : ℕ) (b : Bridge) (s : Proxy) (c : ℕ) (call : Call)
    → lookup client s.bridges ≡ some b
    → lookup c s.calls ≡ some call
    → (call.node_socket == b.node_socket && call.session_id == b.session_id) ≡ true
    → (lookup c (client_leave is_connected client s).calls ≡ none)
      × (lookup b.session_id (client_leave is_connected client s).sessions ≡ none)
      × (lookup client (client_leave is_connected client s).bridges ≡ none)
      × (has (members b.node_id (client_leave is_connected client s).clients_by_node) client
          ≡ false)
unfolding client_leave
client_leave_clears is_connected client b s c call bridged e h =
    rw (client_leave, bridged)
      (if_keeps (Cleared b client c) (is_connected b.node_socket) _ _
        (λ _. forget-Cleared client b s c call e h) (λ _. forget-Cleared client b s c call e h))

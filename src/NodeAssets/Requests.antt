-- ===== src/NodeAssets/Requests.antt =====
-- src/utils/node_assets.js, lines 1 to 216: the requests in flight and what moves them on. Request
-- ids, nodes and sockets are numbers, an error is its HTTP status, and a chunk is its length. What
-- the caller of `proxyNodeHttp` is told is in the log, the newest first.
use virgo_fleet.Base.{
  ℕ, suc, Bool, true, false, not, ◌||◌, List, ◌∷◌, Option, none, some, ◌==◌, if◌then◌else◌, each,
  lookup, insert, erase,
}

pub data RequestState : Type 0 where
  awaiting_response streaming done : RequestState

abbrev pub is_awaiting : RequestState → Bool
is_awaiting awaiting_response = true
is_awaiting _ = false

abbrev pub is_streaming : RequestState → Bool
is_streaming streaming = true
is_streaming _ = false

-- A timer is true while it is armed.
pub record Pending : Type 0 where
  pub node_id : ℕ
  pub state : RequestState
  pub next_expected_seq : ℕ
  pub aborted : Bool
  pub initial_timeout : Bool
  pub chunk_timeout : Bool
  pub max_timeout : Bool

pub data Effect : Type 0 where
  sends_request : (socket request_id path : ℕ) → Effect
  sends_abort : (socket request_id : ℕ) → Effect
  sends_ack : (socket request_id seq : ℕ) → Effect
  on_response : (request_id status : ℕ) → Effect
  on_chunk : (request_id seq size : ℕ) → Effect
  on_end : (request_id : ℕ) → Effect
  resolves : (request_id : ℕ) → Effect
  rejects : (request_id status : ℕ) → Effect
  refuses : (status : ℕ) → Effect

pub record Assets : Type 0 where
  pub requests : List (ℕ × Pending)
  pub log : List Effect

-- `getNodeSocket`, and whether a socket is connected.
pub record Registry : Type 0 where
  pub socket_of : ℕ → Option ℕ
  pub connected : ℕ → Bool

abbrev pub emit : Effect → Assets → Assets
emit e st = record st { log = e ∷ st.log }

-- `clearPendingRequest`: the timers go with the entry.
unfoldable pub clear_pending_request : ℕ → Assets → Assets
clear_pending_request id st = record st { requests = erase id st.requests }

unfoldable pub reset_chunk_timeout : Pending → Pending
reset_chunk_timeout p = record p { initial_timeout = false; chunk_timeout = true }

abbrev pub fresh_request : ℕ → Pending
fresh_request node_id = record {
  node_id = node_id;
  state = awaiting_response;
  next_expected_seq = 0;
  aborted = false;
  initial_timeout = true;
  chunk_timeout = false;
  max_timeout = true;
}

module _ (r : Registry) where
  -- The node's socket, where it has one that is connected.
  unfoldable pub online_socket : ℕ → Option ℕ
  online_socket node_id = elim (r.socket_of node_id) [
    | none ↦ none
    | some n ↦ if r.connected n then some n else none
  ]

  unfoldable pub abort_node_http_request : ℕ → ℕ → Assets → Assets
  abort_node_http_request node_id id st = elim (r.socket_of node_id) [
    | none ↦ st
    | some n ↦ emit (sends_abort n id) st
  ]

  unfoldable pub fail_pending_request : ℕ → ℕ → Assets → Assets
  fail_pending_request id status st = elim (lookup id st.requests) [
    | none ↦ st
    | some p ↦
        emit (rejects id status)
          (abort_node_http_request p.node_id id (clear_pending_request id st))
  ]

  unfoldable pub fail_if_on_node : ℕ → ℕ × Pending → Assets → Assets
  fail_if_on_node node_id (id, p) st =
      if p.node_id == node_id then fail_pending_request id 503 st else st

  unfoldable pub fail_pending_requests_for_node : ℕ → Assets → Assets
  fail_pending_requests_for_node node_id st = each (fail_if_on_node node_id) st.requests st

  unfoldable pub handle_http_response : ℕ → ℕ → Assets → Assets
  handle_http_response id status st = elim (lookup id st.requests) [
    | none ↦ st
    | some p ↦
        if p.aborted || not (is_awaiting p.state)
        then st
        else emit (on_response id status) (record st {
          requests = insert id (reset_chunk_timeout (record p { state = streaming })) st.requests;
        })
  ]

  -- `handleHttpChunk` up to its `await`; a chunk that is no buffer, or an empty one, has size 0.
  unfoldable pub handle_http_chunk : ℕ → ℕ → ℕ → Assets → Assets
  handle_http_chunk id seq size st = elim (lookup id st.requests) [
    | none ↦ st
    | some p ↦
        if p.aborted || not (is_streaming p.state)
        then st
        else if not (seq == p.next_expected_seq)
        then fail_pending_request id 502 st
        else if size == 0
        then fail_pending_request id 502 st
        else emit (on_chunk id seq size) (record st {
          requests =
              insert id
                (reset_chunk_timeout (record p { next_expected_seq = suc p.next_expected_seq }))
                st.requests;
        })
  ]

  -- The rest of it, once the caller has taken the chunk, or has thrown: an error with no
  -- status, 0, is a 500.
  unfoldable pub chunk_taken : ℕ → ℕ → Option ℕ → Assets → Assets
  chunk_taken id seq (some status) st =
      fail_pending_request id (if status == 0 then 500 else status) st
  chunk_taken id seq none st = elim (lookup id st.requests) [
    | none ↦ st
    | some p ↦
        if p.aborted || not (is_streaming p.state) then st else elim (online_socket p.node_id) [
          | none ↦ fail_pending_request id 503 st
          | some n ↦ emit (sends_ack n id seq) st
        ]
  ]

  unfoldable pub handle_http_end : ℕ → Assets → Assets
  handle_http_end id st = elim (lookup id st.requests) [
    | none ↦ st
    | some p ↦
        if p.aborted || not (is_streaming p.state)
        then st
        else emit (resolves id) (clear_pending_request id (emit (on_end id) st))
  ]

  -- An error with no status is a 502.
  unfoldable pub handle_http_error : ℕ → ℕ → Assets → Assets
  handle_http_error id status st = fail_pending_request id (if status == 0 then 502 else status) st

  -- The bodies of the three timers.
  unfoldable pub timed_out : ℕ → Assets → Assets
  timed_out id st = fail_pending_request id 504 st

  -- `proxyNodeHttp`, with the request id that `randomUUID` gives.
  unfoldable pub proxy_node_http : ℕ → ℕ → ℕ → Assets → Assets
  proxy_node_http id node_id path st = elim (online_socket node_id) [
    | none ↦ emit (refuses 503) st
    | some n ↦
        emit (sends_request n id path)
          (record st { requests = insert id (fresh_request node_id) st.requests })
  ]

pub data Event : Type 0 where
  proxies : (id node_id path : ℕ) → Event
  responds : (id status : ℕ) → Event
  chunks : (id seq size : ℕ) → Event
  takes : (id seq : ℕ) → Option ℕ → Event
  ends : (id : ℕ) → Event
  errs : (id status : ℕ) → Event
  times_out : (id : ℕ) → Event
  node_drops : (node_id : ℕ) → Event

unfoldable pub step : Registry → Event → Assets → Assets
step r (proxies id node_id path) = proxy_node_http r id node_id path
step r (responds id status) = handle_http_response r id status
step r (chunks id seq size) = handle_http_chunk r id seq size
step r (takes id seq result) = chunk_taken r id seq result
step r (ends id) = handle_http_end r id
step r (errs id status) = handle_http_error r id status
step r (times_out id) = timed_out r id
step r (node_drops node_id) = fail_pending_requests_for_node r node_id

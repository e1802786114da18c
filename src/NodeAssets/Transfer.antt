-- ===== src/NodeAssets/Transfer.antt =====
-- src/utils/node_assets.js: a request is settled once, and its chunks arrive in order.
use mathlib.Core.Path.{ap₂}
use virgo_fleet.Base.{
  zero, Bool-cases, inl, inr, ℕ, suc, ◌≤◌, ◌≡◌, refl, ◌∙◌, sym, ap, false, not, ◌||◌, List, [], ◌∷◌,
  Option, none, some, arith, ◌==◌, if◌then◌else◌, each_inv, length, lookup, lookup-insert,
  lookup-erase, if_keeps, Option_keeps,
}
use virgo_fleet.NodeAssets.Requests.{
  is_awaiting, is_streaming, streaming, fresh_request, Pending, Effect, on_chunk, resolves, rejects,
  Assets, Registry, Event, proxies, responds, chunks, takes, ends, errs, times_out, node_drops,
  clear_pending_request, reset_chunk_timeout, online_socket, abort_node_http_request,
  fail_pending_request, fail_if_on_node, fail_pending_requests_for_node, handle_http_response,
  handle_http_chunk, chunk_taken, handle_http_end, handle_http_error, timed_out, proxy_node_http,
  step,
}

-- How often the promise of a request was resolved or rejected.
abbrev pub settlements : ℕ → List Effect → ℕ
settlements j [] = 0
settlements j (resolves id ∷ log) = if id == j then suc (settlements j log) else settlements j log
settlements j (rejects id status ∷ log) =
    if id == j then suc (settlements j log) else settlements j log
settlements j (_ ∷ log) = settlements j log

-- The sequence numbers of the chunks that a request's caller was given, the last first.
abbrev pub received : ℕ → List Effect → List ℕ
received j [] = []
received j (on_chunk id seq size ∷ log) = if id == j then seq ∷ received j log else received j log
received j (_ ∷ log) = received j log

-- n - 1, …, 1, 0
abbrev pub countdown : ℕ → List ℕ
countdown zero = []
countdown (suc n) = n ∷ countdown n

abbrev pub Live : ℕ → List Effect → Option Pending → Type 0
Live j log none = Unit {0}
Live j log (some p) = (settlements j log ≡ 0) × (received j log ≡ countdown p.next_expected_seq)

-- Nothing has happened under an id.
abbrev pub IsUnused : ℕ → Assets → Type 0
IsUnused j st = (settlements j st.log ≡ 0) × (received j st.log ≡ [])

pub record IsSound (j : ℕ) (st : Assets) : Type 0 where
  pub once : settlements j st.log ≤ 1
  pub ordered : received j st.log ≡ countdown (length (received j st.log))
  pub live : Live j st.log (lookup j st.requests)

abort-IsSound :
    (r : Registry) (j node_id id : ℕ) (st : Assets)
    → IsSound j st
    → IsSound j (abort_node_http_request r node_id id st)
unfolding abort_node_http_request
abort-IsSound r j node_id id st i =
    Option_keeps (IsSound j) (r.socket_of node_id) _ _ (λ _. i)
      λ n _. record { once = i.once; ordered = i.ordered; live = i.live }

fail_pending_request-IsSound :
    (r : Registry) (j id status : ℕ) (st : Assets)
    → IsSound j st
    → IsSound j (fail_pending_request r id status st)
unfolding fail_pending_request abort_node_http_request clear_pending_request
fail_pending_request-IsSound r j id status st i =
    Option_keeps (IsSound j) (lookup id st.requests) _ _ (λ _. i)
      λ p found. record {
        once = ground (arith, i.once, i.live);
        ordered = ground (arith, i.ordered);
        live = ground (arith, i.live, lookup-erase id j st.requests);
      }

length-countdown : (n : ℕ) → length (countdown n) ≡ n
length-countdown zero = refl
length-countdown (suc n) = ap suc (length-countdown n)

-- One chunk more, in its turn.
countdown_of :
    (seq n : ℕ) (l : List ℕ) → l ≡ countdown n → countdown (suc n) ≡ countdown (length (seq ∷ l))
countdown_of seq n l e = ap (λ k. countdown (suc k)) (sym (ap length e ∙ length-countdown n))

turn :
    (seq : ℕ) (p : Pending) → not (seq == p.next_expected_seq) ≡ false → seq ≡ p.next_expected_seq
turn seq p h = ground arith

-- The entry after a chunk.
abbrev taken : Pending → Pending
taken p = reset_chunk_timeout (record p { next_expected_seq = suc p.next_expected_seq })

live_at :
    {j : ℕ} (id : ℕ) (st : Assets) (p : Pending)
    → id ≡ j
    → lookup id st.requests ≡ some p
    → IsSound j st
    → (settlements j st.log ≡ 0) × (received j st.log ≡ countdown p.next_expected_seq)
live_at id st p e found i = rw ((ap (λ x. lookup x st.requests) (sym e)) ∙ found) at i.live

other-Live :
    (j id seq size : ℕ) (log : List Effect) (o : Option Pending)
    → (id == j) ≡ false
    → Live j log o
    → Live j (on_chunk id seq size ∷ log) o
other-Live j id seq size log none other l = tt
other-Live j id seq size log (some p) other l = (l.0, rw other l.1)

module _ (r : Registry) (j : ℕ) where
  handle_http_response-IsSound :
      (id status : ℕ) (st : Assets) → IsSound j st → IsSound j (handle_http_response r id status st)
  unfolding handle_http_response reset_chunk_timeout
  handle_http_response-IsSound id status st i =
      Option_keeps (IsSound j) (lookup id st.requests) _ _ (λ _. i)
        λ p found.
          if_keeps (IsSound j) (p.aborted || not (is_awaiting p.state)) _ _ (λ _. i)
            λ _. record {
              once = i.once;
              ordered = i.ordered;
              live = ground (
                arith,
                i.live,
                lookup-insert id j (reset_chunk_timeout (record p { state = streaming }))
                    st.requests,
              );
            }

  handle_http_chunk-IsSound :
      (id seq size : ℕ) (st : Assets)
      → IsSound j st
      → IsSound j (handle_http_chunk r id seq size st)
  unfolding handle_http_chunk reset_chunk_timeout
  handle_http_chunk-IsSound id seq size st i =
      Option_keeps (IsSound j) (lookup id st.requests) _ _ (λ _. i)
        λ p found.
          if_keeps (IsSound j) (p.aborted || not (is_streaming p.state)) _ _ (λ _. i)
            λ _.
              if_keeps (IsSound j) (not (seq == p.next_expected_seq)) _ _
                (λ _. fail_pending_request-IsSound r j id 502 st i)
                λ in_turn.
                  if_keeps (IsSound j) (size == 0) _ _
                    (λ _. fail_pending_request-IsSound r j id 502 st i)
                    λ _. record {
                      once = i.once;
                      ordered = elim (Bool-cases (id == j)) [
                        | inl hit ↦
                            let (mine, got) = live_at id st p (ground arith) found i in
                            rw hit (
                              ap₂ ◌∷◌ (turn seq p in_turn) got
                              ∙ countdown_of seq p.next_expected_seq _ got)
                        | inr other ↦ rw other i.ordered
                      ];
                      live = elim (Bool-cases (id == j)) [
                        | inl hit ↦
                            let (mine, got) = live_at id st p (ground arith) found i in
                            rw (lookup-insert id j (taken p) st.requests, hit)
                              (mine, rw hit (ap₂ ◌∷◌ (turn seq p in_turn) got))
                        | inr other ↦
                            rw (lookup-insert id j (taken p) st.requests, other)
                              (other-Live j id seq size st.log (lookup j st.requests) other i.live)
                      ];
                    }

  chunk_taken-IsSound :
      (id seq : ℕ) (result : Option ℕ) (st : Assets)
      → IsSound j st
      → IsSound j (chunk_taken r id seq result st)
  unfolding chunk_taken
  chunk_taken-IsSound id seq (some status) st i = fail_pending_request-IsSound r j id _ st i
  chunk_taken-IsSound id seq none st i =
      Option_keeps (IsSound j) (lookup id st.requests) _ _ (λ _. i)
        λ p found.
          if_keeps (IsSound j) (p.aborted || not (is_streaming p.state)) _ _ (λ _. i)
            λ _.
              Option_keeps (IsSound j) (online_socket r p.node_id) _ _
                (λ _. fail_pending_request-IsSound r j id 503 st i)
                λ n _. record { once = i.once; ordered = i.ordered; live = i.live }

  handle_http_end-IsSound :
      (id : ℕ) (st : Assets) → IsSound j st → IsSound j (handle_http_end r id st)
  unfolding handle_http_end clear_pending_request
  handle_http_end-IsSound id st i =
      Option_keeps (IsSound j) (lookup id st.requests) _ _ (λ _. i)
        λ p found.
          if_keeps (IsSound j) (p.aborted || not (is_streaming p.state)) _ _ (λ _. i)
            λ _. record {
              once = ground (arith, i.once, i.live);
              ordered = i.ordered;
              live = ground (arith, i.live, lookup-erase id j st.requests);
            }

  fail_pending_requests_for_node-IsSound :
      (node_id : ℕ) (st : Assets)
      → IsSound j st
      → IsSound j (fail_pending_requests_for_node r node_id st)
  unfolding fail_pending_requests_for_node fail_if_on_node
  fail_pending_requests_for_node-IsSound node_id st i =
      each_inv (IsSound j) (fail_if_on_node r node_id) one st.requests st i
    where
      one :
          (entry : ℕ × Pending) (s : Assets)
          → IsSound j s
          → IsSound j (fail_if_on_node r node_id entry s)
      one (id, p) s k =
          if_keeps (IsSound j) (p.node_id == node_id) _ _
            (λ _. fail_pending_request-IsSound r j id 503 s k) (λ _. k)

  proxy_node_http-IsSound :
      (id node_id path : ℕ) (st : Assets)
      → (id ≡ j → IsUnused j st)
      → IsSound j st
      → IsSound j (proxy_node_http r id node_id path st)
  unfolding proxy_node_http
  proxy_node_http-IsSound id node_id path st fresh i =
      Option_keeps (IsSound j) (online_socket r node_id) _ _
        (λ _. record { once = i.once; ordered = i.ordered; live = i.live })
        λ n _. record {
          once = i.once;
          ordered = i.ordered;
          live = rw (lookup-insert id j (fresh_request node_id) st.requests) (
              if_keeps (Live j st.log) (id == j) (some (fresh_request node_id))
                (lookup j st.requests) (λ hit. fresh (ground arith)) (λ _. i.live));
        }

-- A new request's id has not been used.
abbrev pub IsFresh : ℕ → Event → Assets → Type 0
IsFresh j (proxies id node_id path) st = id ≡ j → IsUnused j st
IsFresh j _ st = Unit {0}

-- Whatever event runs: the promise of a request is settled once at most, and not while the request
-- is in flight; and its caller has been given the chunks 0, 1, 2, …, in this order, none missing
-- and none twice, and as many as the request has counted. A new request's id has not been used.
pub step-IsSound :
    (r : Registry) (j : ℕ) (e : Event) (st : Assets)
    → IsFresh j e st
    → IsSound j st
    → IsSound j (step r e st)
unfolding step handle_http_error timed_out
step-IsSound r j (proxies id node_id path) st f i =
    proxy_node_http-IsSound r j id node_id path st f i
step-IsSound r j (responds id status) st f i = handle_http_response-IsSound r j id status st i
step-IsSound r j (chunks id seq size) st f i = handle_http_chunk-IsSound r j id seq size st i
step-IsSound r j (takes id seq result) st f i = chunk_taken-IsSound r j id seq result st i
step-IsSound r j (ends id) st f i = handle_http_end-IsSound r j id st i
step-IsSound r j (errs id status) st f i = fail_pending_request-IsSound r j id _ st i
step-IsSound r j (times_out id) st f i = fail_pending_request-IsSound r j id 504 st i
step-IsSound r j (node_drops node_id) st f i =
    fail_pending_requests_for_node-IsSound r j node_id st i

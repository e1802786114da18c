-- ===== src/NodeAssets/Uniqueness.antt =====
-- src/utils/node_assets.js: the pending requests are a map, as a JavaScript Map is, after every event.
use virgo_fleet.Base.{
  ℕ, refl, not, ◌||◌, none, some, List, [], ◌∷◌, arith, ◌==◌, if_keeps, Option_keeps, each_inv,
  lookup, insert, erase, lookup-insert, lookup-erase,
}
use virgo_fleet.NodeAssets.Requests.{
  Pending, Assets, Registry, is_awaiting, is_streaming, online_socket, fresh_request,
  clear_pending_request, abort_node_http_request, fail_pending_request, fail_if_on_node,
  fail_pending_requests_for_node, handle_http_response, handle_http_chunk, chunk_taken,
  handle_http_end, handle_http_error, timed_out, proxy_node_http, Event, proxies, responds, chunks,
  takes, ends, errs, times_out, node_drops, step,
}
use virgo_fleet.NodeAssets.Buffering.{IsMap}

insert-IsMap :
    (id : ℕ) (p : Pending) (entries : List (ℕ × Pending))
    → IsMap entries
    → IsMap (insert id p entries)
unfolding IsMap insert lookup
insert-IsMap id p [] m = (refl, tt)
insert-IsMap id p ((k, q) ∷ rest) m =
    ground (arith, insert-IsMap id p rest m.1, lookup-insert id k p rest)

erase-IsMap : (id : ℕ) (entries : List (ℕ × Pending)) → IsMap entries → IsMap (erase id entries)
unfolding IsMap erase
erase-IsMap id [] m = tt
erase-IsMap id ((k, q) ∷ rest) m = ground (arith, erase-IsMap id rest m.1, lookup-erase id k rest)

abbrev pub IsUnique : Assets → Type 0
IsUnique st = IsMap st.requests

module _ (r : Registry) where
  abort-IsUnique :
      (n id : ℕ) (st : Assets) → IsUnique st → IsUnique (abort_node_http_request r n id st)
  unfolding abort_node_http_request
  abort-IsUnique n id st m = Option_keeps IsUnique (r.socket_of n) _ _ (λ _. m) (λ _ _. m)

  fail-IsUnique :
      (id status : ℕ) (st : Assets) → IsUnique st → IsUnique (fail_pending_request r id status st)
  unfolding fail_pending_request clear_pending_request
  fail-IsUnique id status st m =
      Option_keeps IsUnique (lookup id st.requests) _ _ (λ _. m)
        λ p _.
          abort-IsUnique p.node_id id (clear_pending_request id st) (erase-IsMap id st.requests m)

  fail_if-IsUnique :
      (n : ℕ) (e : ℕ × Pending) (st : Assets) → IsUnique st → IsUnique (fail_if_on_node r n e st)
  unfolding fail_if_on_node
  fail_if-IsUnique n (id, p) st m =
      if_keeps IsUnique (p.node_id == n) _ _ (λ _. fail-IsUnique id 503 st m) (λ _. m)

  -- No event gives a request id a second entry.
  pub step-IsUnique : (e : Event) (st : Assets) → IsUnique st → IsUnique (step r e st)
  unfolding step proxy_node_http handle_http_response handle_http_chunk chunk_taken handle_http_end
      handle_http_error timed_out fail_pending_requests_for_node clear_pending_request
  step-IsUnique (proxies id n path) st m =
      Option_keeps IsUnique (online_socket r n) _ _ (λ _. m)
        (λ _ _. insert-IsMap id (fresh_request n) st.requests m)
  step-IsUnique (responds id status) st m =
      Option_keeps IsUnique (lookup id st.requests) _ _ (λ _. m)
        λ p _.
          if_keeps IsUnique (p.aborted || not (is_awaiting p.state)) _ _ (λ _. m)
            (λ _. insert-IsMap id _ st.requests m)
  step-IsUnique (chunks id seq size) st m =
      Option_keeps IsUnique (lookup id st.requests) _ _ (λ _. m)
        λ p _.
          if_keeps IsUnique (p.aborted || not (is_streaming p.state)) _ _ (λ _. m)
            λ _.
              if_keeps IsUnique (not (seq == p.next_expected_seq)) _ _
                (λ _. fail-IsUnique id 502 st m)
                λ _.
                  if_keeps IsUnique (size == 0) _ _ (λ _. fail-IsUnique id 502 st m)
                    (λ _. insert-IsMap id _ st.requests m)
  step-IsUnique (takes id seq (some status)) st m = fail-IsUnique id _ st m
  step-IsUnique (takes id seq none) st m =
      Option_keeps IsUnique (lookup id st.requests) _ _ (λ _. m)
        λ p _.
          if_keeps IsUnique (p.aborted || not (is_streaming p.state)) _ _ (λ _. m)
            λ _.
              Option_keeps IsUnique (online_socket r p.node_id) _ _ (λ _. fail-IsUnique id 503 st m)
                (λ _ _. m)
  step-IsUnique (ends id) st m =
      Option_keeps IsUnique (lookup id st.requests) _ _ (λ _. m)
        λ p _.
          if_keeps IsUnique (p.aborted || not (is_streaming p.state)) _ _ (λ _. m)
            (λ _. erase-IsMap id st.requests m)
  step-IsUnique (errs id status) st m = fail-IsUnique id _ st m
  step-IsUnique (times_out id) st m = fail-IsUnique id 504 st m
  step-IsUnique (node_drops n) st m =
      each_inv IsUnique (fail_if_on_node r n) (fail_if-IsUnique n) st.requests st m

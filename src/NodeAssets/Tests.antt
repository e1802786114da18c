-- ===== src/NodeAssets/Tests.antt =====
-- src/utils/node_assets.js: the theorems on a transfer of two chunks.
use virgo_fleet.Base.{
  ◌≡◌, ◌≤◌, ◌<◌, refl, true, [], ◌∷◌, none, some, arith, lookup, insert, erase, length,
}
use virgo_fleet.NodeAssets.Requests.{
  Assets, Registry, proxies, responds, chunks, ends, step, proxy_node_http, handle_http_response,
  handle_http_chunk, handle_http_end, online_socket, reset_chunk_timeout, clear_pending_request,
  fail_pending_requests_for_node,
}
use virgo_fleet.NodeAssets.Transfer.{settlements, received, IsSound, step-IsSound}
use virgo_fleet.NodeAssets.Uniqueness.{step-IsUnique}
use virgo_fleet.NodeAssets.Buffering.{
  concat, on_chunks, new_buffer, on_end, on_chunks_lem, IsMap, on_other_node,
  at-fail_pending_requests_for_node, max_buffered_asset_bytes,
}

abbrev registry : Registry
registry = record { socket_of = λ node_id. some 70; connected = λ n. true }

abbrev idle : Assets
idle = record { requests = []; log = [] }

begun : Assets
unfolding step proxy_node_http online_socket
begun = step registry (proxies 1 7 5) idle

transfer : Assets
unfolding begun step handle_http_response handle_http_chunk handle_http_end reset_chunk_timeout
    clear_pending_request
transfer = step registry (ends 1) (
    step registry (chunks 1 1 20)
      (step registry (chunks 1 0 10) (step registry (responds 1 200) begun)))

transfer_test :
    (settlements 1 transfer.log ≡ 1)
    × (received 1 transfer.log ≡ 1 ∷ 0 ∷ [])
    × (transfer.requests ≡ [])
unfolding transfer insert lookup erase
transfer_test = (refl, refl, refl)

idle-IsSound : IsSound 1 idle
unfolding lookup
idle-IsSound = record { once = omega arith; ordered = refl; live = tt }

step-IsSound_example : IsSound 1 (step registry (proxies 1 7 5) idle)
step-IsSound_example = step-IsSound registry 1 (proxies 1 7 5) idle (λ e. (refl, refl)) idle-IsSound

on_chunks_example :
    (length (concat ((1 ∷ 2 ∷ []) ∷ [])) ≤ max_buffered_asset_bytes
      → ((on_chunks ((1 ∷ 2 ∷ []) ∷ []) new_buffer).1 ≡ none)
        × ((on_end (on_chunks ((1 ∷ 2 ∷ []) ∷ []) new_buffer).0).body ≡ 1 ∷ 2 ∷ []))
    × (max_buffered_asset_bytes < length (concat ((1 ∷ 2 ∷ []) ∷ []))
        → (on_chunks ((1 ∷ 2 ∷ []) ∷ []) new_buffer).1 ≡ some 502)
on_chunks_example = on_chunks_lem ((1 ∷ 2 ∷ []) ∷ [])

begun-IsMap : IsMap begun.requests
unfolding begun IsMap
begun-IsMap = step-IsUnique registry (proxies 1 7 5) idle tt

at-fail_pending_requests_for_node_example :
    lookup 1 (fail_pending_requests_for_node registry 8 begun).requests
    ≡ on_other_node 8 (lookup 1 begun.requests)
at-fail_pending_requests_for_node_example =
    at-fail_pending_requests_for_node registry 8 begun 1 begun-IsMap

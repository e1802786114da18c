-- ===== src/NodeAssets/Buffering.antt =====
-- src/utils/node_assets.js, lines 241 to 270 (the document that `fetchNodeAsset` collects), and what
-- is left when a node's socket drops. A chunk is its bytes.
use mathlib.Core.List.{append-nil, append_assoc}
use virgo_fleet.Base.{
  sym, ◌<◌, lt→ltb, ltb→lt, ℕ, ◌+◌, ◌≤◌, ◌≡◌, refl, ap, ◌∙◌, false, List, [], ◌∷◌, ◌++◌, Option,
  none, some, arith, ◌&&◌, ◌==◌, ==_iff, ltb, if◌then◌else◌, each, length, length-append, lookup,
  lookup-erase, Option-cases, inl, inr, Bool-cases,
}
use virgo_fleet.NodeAssets.Requests.{
  Pending, Assets, Registry, clear_pending_request, abort_node_http_request, fail_pending_request,
  fail_if_on_node, fail_pending_requests_for_node,
}

abbrev pub max_buffered_asset_bytes : ℕ
max_buffered_asset_bytes = 1048576

-- The variables of `fetchNodeAsset`. A content type is a number, 0 for none.
pub record Buffer : Type 0 where
  pub chunks : List (List ℕ)
  pub buffered_bytes : ℕ
  pub status : ℕ
  pub content_type : ℕ
  pub body : List ℕ

pub octet_stream : ℕ
octet_stream = 1

unfoldable pub new_buffer : Buffer
new_buffer = record {
  chunks = [];
  buffered_bytes = 0;
  status = 502;
  content_type = octet_stream;
  body = [];
}

unfoldable pub on_response : ℕ → ℕ → Buffer → Buffer
on_response status content_type b = record b {
  status = status;
  content_type = if content_type == 0 then b.content_type else content_type;
}

-- `onChunk`: the new state, and the status of the error that it throws.
unfoldable pub on_chunk : List ℕ → Buffer → Buffer × Option ℕ
on_chunk chunk b =
    let total = b.buffered_bytes + length chunk in
    if ltb max_buffered_asset_bytes total
    then (record b { buffered_bytes = total }, some 502)
    else (record b { buffered_bytes = total; chunks = b.chunks ++ chunk ∷ [] }, none)

-- `Buffer.concat(chunks)`
abbrev pub concat : List (List ℕ) → List ℕ
concat [] = []
concat (c ∷ cs) = c ++ concat cs

unfoldable pub on_end : Buffer → Buffer
on_end b = record b { body = concat b.chunks }

-- The chunks of a transfer one after the other, up to the first that is refused. `handleHttpChunk` has
-- refused an empty chunk before.
unfoldable pub on_chunks : List (List ℕ) → Buffer → Buffer × Option ℕ
on_chunks [] b = (b, none)
on_chunks (c ∷ cs) b =
    let (b', thrown) = on_chunk c b in
    let rest = on_chunks cs b' in elim thrown [ none ↦ rest | some status ↦ (b', some status) ]

concat-append : (xs : List (List ℕ)) (c : List ℕ) → concat (xs ++ c ∷ []) ≡ concat xs ++ c
concat-append [] c = append-nil c
concat-append (x ∷ xs) c =
    ap (λ l. x ++ l) (concat-append xs c) ∙ sym (append_assoc x (concat xs) c)

-- What has been collected is what has been counted, and is within the limit.
pub record IsCounted (b : Buffer) : Type 0 where
  pub counted : b.buffered_bytes ≡ length (concat b.chunks)
  pub bounded : b.buffered_bytes ≤ max_buffered_asset_bytes

accepted :
    (c : List ℕ) (b : Buffer)
    → IsCounted b
    → b.buffered_bytes + length c ≤ max_buffered_asset_bytes
    → ((on_chunk c b).1 ≡ none)
      × IsCounted (on_chunk c b).0
      × (concat (on_chunk c b).0.chunks ≡ concat b.chunks ++ c)
      × ((on_chunk c b).0.buffered_bytes ≡ b.buffered_bytes + length c)
unfolding on_chunk
accepted c b i fits =
    let fine : ltb max_buffered_asset_bytes (b.buffered_bytes + length c) ≡ false = ground arith in
    rw fine (
      refl,
      record {
        counted = omega (
          arith,
          i.counted,
          ap length (concat-append b.chunks c),
          length-append (concat b.chunks) c,
        );
        bounded = fits;
      },
      concat-append b.chunks c,
      refl,
    )

refused :
    (c : List ℕ) (b : Buffer)
    → max_buffered_asset_bytes < b.buffered_bytes + length c
    → (on_chunk c b).1 ≡ some 502
unfolding on_chunk
refused c b over = rw (lt→ltb _ _ over)

collects :
    (cs : List (List ℕ)) (b : Buffer)
    → IsCounted b
    → b.buffered_bytes + length (concat cs) ≤ max_buffered_asset_bytes
    → ((on_chunks cs b).1 ≡ none)
      × (concat (on_chunks cs b).0.chunks ≡ concat b.chunks ++ concat cs)
unfolding on_chunks
collects [] b i fits = (refl, sym (append-nil (concat b.chunks)))
collects (c ∷ cs) b i fits =
    let sizes = length-append c (concat cs) in
    let (fine, i', got, size) = accepted c b i (omega (arith, sizes)) in
    let (rest, all) = collects cs (on_chunk c b).0 i' (omega (arith, sizes, size)) in
    rw (fine, on_chunks)
      (rest, all ∙ ap (λ l. l ++ concat cs) got ∙ append_assoc (concat b.chunks) c (concat cs))

overflows :
    (cs : List (List ℕ)) (b : Buffer)
    → IsCounted b
    → max_buffered_asset_bytes < b.buffered_bytes + length (concat cs)
    → (on_chunks cs b).1 ≡ some 502
unfolding on_chunks
overflows [] b i over = absurd (omega (arith, i.bounded))
overflows (c ∷ cs) b i over =
    elim (Bool-cases (ltb max_buffered_asset_bytes (b.buffered_bytes + length c))) [
      | inl here ↦ rw (refused c b (ltb→lt _ _ here), on_chunks)
      | inr later ↦
          let sizes = length-append c (concat cs) in
          let (fine, i', got, size) = accepted c b i (ground arith) in
          rw (fine, on_chunks) (overflows cs (on_chunk c b).0 i' (omega (arith, sizes, size)))
    ]

-- A document that comes in any chunks is handed over whole, if it has at most 1 MB; if it has more,
-- the transfer fails with 502.
pub on_chunks_lem :
    (cs : List (List ℕ))
    → (length (concat cs) ≤ max_buffered_asset_bytes
        → ((on_chunks cs new_buffer).1 ≡ none)
          × ((on_end (on_chunks cs new_buffer).0).body ≡ concat cs))
      × (max_buffered_asset_bytes < length (concat cs) → (on_chunks cs new_buffer).1 ≡ some 502)
unfolding new_buffer on_end
on_chunks_lem cs =
    let i : IsCounted new_buffer = record { counted = refl; bounded = omega arith } in
    (λ h. collects cs new_buffer i (omega arith), λ h. overflows cs new_buffer i (omega arith))

at-fail_pending_request :
    (r : Registry) (j id status : ℕ) (st : Assets)
    → lookup j (fail_pending_request r id status st).requests
      ≡ (if id == j then none else lookup j st.requests)
unfolding fail_pending_request abort_node_http_request clear_pending_request
at-fail_pending_request r j id status st = elim (Option-cases (lookup id st.requests)) [
  | inl e ↦ rw (e, fail_pending_request) (ground arith)
  | inr (p, e) ↦ rw (e, fail_pending_request) (ground (arith, lookup-erase id j st.requests))
]

at-fail_if_on_node :
    (r : Registry) (node_id j id : ℕ) (p : Pending) (st : Assets)
    → lookup j (fail_if_on_node r node_id (id, p) st).requests
      ≡ (if id == j && p.node_id == node_id then none else lookup j st.requests)
unfolding fail_if_on_node
at-fail_if_on_node r node_id j id p st = elim (Bool-cases (p.node_id == node_id)) [
  | inl e ↦ ground (arith, e, at-fail_pending_request r j id 503 st)
  | inr e ↦ ground (arith, e)
]

-- A JavaScript Map holds each id once.
unfoldable pub IsMap : List (ℕ × Pending) → Type 0
IsMap [] = Unit
IsMap ((id, p) ∷ rest) = (lookup id rest ≡ none) × IsMap rest

-- A request that is still there after the requests of a node are failed.
abbrev pub on_other_node : ℕ → Option Pending → Option Pending
on_other_node node_id none = none
on_other_node node_id (some p) = if p.node_id == node_id then none else some p

-- What the loop has done with a request that is among those it has gone over.
fails_listed : (node_id : ℕ) → Option Pending → Option Pending → Option Pending
fails_listed node_id none before = before
fails_listed node_id (some p) before = if p.node_id == node_id then none else before

at-loop :
    (r : Registry) (node_id : ℕ) (entries : List (ℕ × Pending)) (st : Assets) (j : ℕ)
    → IsMap entries
    → lookup j (each (fail_if_on_node r node_id) entries st).requests
      ≡ fails_listed node_id (lookup j entries) (lookup j st.requests)
unfolding each lookup IsMap fails_listed
at-loop r node_id [] st j m = refl
at-loop r node_id ((id, q) ∷ entries) st j m =
    at-loop r node_id entries (fail_if_on_node r node_id (id, q) st) j m.1
    ∙ ap (fails_listed node_id (lookup j entries)) (at-fail_if_on_node r node_id j id q st)
    ∙ elim (Bool-cases (id == j)) [
      | inl e ↦
          let once : lookup j entries ≡ none =
            ap (λ i. lookup i entries) (sym ((==_iff id j).0 e)) ∙ m.0 in
          rw (once, e, fails_listed)
      | inr e ↦ rw (e, fails_listed)
    ]

-- When a node's socket drops, each request to that node is ended and each other one is as it was.
pub at-fail_pending_requests_for_node :
    (r : Registry) (node_id : ℕ) (st : Assets) (j : ℕ)
    → IsMap st.requests
    → lookup j (fail_pending_requests_for_node r node_id st).requests
      ≡ on_other_node node_id (lookup j st.requests)
unfolding fail_pending_requests_for_node fails_listed
at-fail_pending_requests_for_node r node_id st j m =
    at-loop r node_id st.requests st j m ∙ Option_all (lookup j st.requests)
  where
    Option_all : (o : Option Pending) → fails_listed node_id o o ≡ on_other_node node_id o
    Option_all none = refl
    Option_all (some p) = refl

-- ===== src/NodeControl/Transitions.antt =====
-- modules/node/index.js: `#notifyStorageHealth`, over repeated reports and by pool.
use virgo_fleet.Base.{
  ℕ, true, false, not, ◌&&◌, ◌||◌, Option, none, some, is_some, List, [], ◌∷◌, ◌≡◌, refl, ap, inl,
  inr, ◌==◌, ==_iff, ==_refl, if_keeps, Bool-cases, Option-cases, has, keys, any, lookup, insert,
  lookup-revise, lookup-keys, arith, ◌∙◌,
}
use virgo_fleet.NodeControl.State.{
  Row, Pool, PoolState, online, degraded, faulted, rebuilding, Change, Hub, World,
}
use virgo_fleet.NodeControl.Notifications.{
  pool_state, pool_states, same_state, was, is_news, changes, covers, same_states, is_stored,
  reported_pools, get_node_storage_signature, set_node_storage_signature, push_changes,
  notify_storage_health,
}

-- Every pool name has one state.
abbrev pub Distinct : List (ℕ × PoolState) → Type 0
Distinct [] = Unit
Distinct ((pool, state) ∷ rest) = (has (keys rest) pool ≡ false) × Distinct rest

same_state_refl : (s : PoolState) → same_state s s ≡ true
same_state_refl online = refl
same_state_refl degraded = refl
same_state_refl faulted = refl
same_state_refl rebuilding = refl

keys-insert :
    (k : ℕ) (s : PoolState) (m : List (ℕ × PoolState)) (j : ℕ)
    → has (keys (insert k s m)) j ≡ (k == j || has (keys m) j)
unfolding insert
keys-insert k s [] j = refl
keys-insert k s ((i, t) ∷ m) j = elim (Bool-cases (i == k)) [
  | inl e ↦ rw (e, insert) (let own : i ≡ k = (==_iff i k).0 e in rw own (ground arith))
  | inr e ↦ rw (e, insert) (ground (arith, keys-insert k s m j))
]

insert-Distinct :
    (k : ℕ) (s : PoolState) (m : List (ℕ × PoolState)) → Distinct m → Distinct (insert k s m)
unfolding insert
insert-Distinct k s [] d = (refl, tt)
insert-Distinct k s ((i, t) ∷ m) d = elim (Bool-cases (i == k)) [
  | inl e ↦ rw (e, insert) (let own : i ≡ k = (==_iff i k).0 e in rw (← own) d)
  | inr e ↦ rw (e, insert) (ground (arith, e, d.0, keys-insert k s m i), insert-Distinct k s m d.1)
]

pool_states-Distinct :
    (pools : List Pool) (current : List (ℕ × PoolState))
    → Distinct current
    → Distinct (pool_states pools current)
unfolding pool_states
pool_states-Distinct [] current d = d
pool_states-Distinct (pool ∷ pools) current d = pool_states-Distinct pools _ (
    if_keeps Distinct pool.is_pool (insert pool.name (pool_state pool) current) current
      (λ _. insert-Distinct pool.name (pool_state pool) current d) (λ _. d))

-- A list with one state for each name covers what it agrees with.
covers_agreeing :
    (xs ys : List (ℕ × PoolState))
    → Distinct ys
    → ((k : ℕ) (s : PoolState) → lookup k ys ≡ some s → lookup k xs ≡ some s)
    → covers xs ys ≡ true
unfolding covers lookup
covers_agreeing xs [] d h = refl
covers_agreeing xs ((k, s) ∷ ys) d h =
    rw (h k s (rw (==_refl k)), same_state_refl s)
      (covers_agreeing xs ys d.1 λ j t e. h j t (ground (arith, e, other j)))
  where
    other : (j : ℕ) → k ≡ j → lookup j ys ≡ none
    other j e = rw (← e) (lookup-keys k ys d.0)

stored_self : (xs : List (ℕ × PoolState)) → Distinct xs → is_stored xs (some xs) ≡ true
unfolding is_stored same_states
stored_self xs d = rw (covers_agreeing xs xs d (λ k s e. e))

signature-set :
    (node_id : ℕ) (states : List (ℕ × PoolState)) (rows : List (ℕ × Row))
    → is_some (lookup node_id rows) ≡ true
    → get_node_storage_signature node_id (set_node_storage_signature node_id states rows)
      ≡ some states
unfolding get_node_storage_signature set_node_storage_signature
signature-set node_id states rows h = elim (Option-cases (lookup node_id rows)) [
  | inl e ↦ cc (ap is_some e, h)
  | inr (r, e) ↦ rw (get_node_storage_signature, lookup-revise _ node_id rows, e, ==_refl node_id)
]

pushed-rows :
    (w : World) (node_id : ℕ) (cs : List Change) (st : Hub)
    → (push_changes w node_id cs st).rows ≡ st.rows
unfolding push_changes
pushed-rows w node_id [] st = refl
pushed-rows w node_id (c ∷ cs) st = ground arith

module _ (w : World) (node_id : ℕ) (pools : Option (List Pool)) where
  -- A report whose states are the stored ones changes nothing.
  unchanged :
      (st : Hub)
      → is_stored
          (pool_states (reported_pools pools) [])
          (get_node_storage_signature node_id st.rows)
        ≡ true
      → notify_storage_health w node_id pools st ≡ st
  unfolding notify_storage_health
  unchanged st h = rw h

  -- A storage report that repeats the last one, of a node that has a row, changes no row and pushes
  -- nothing.
  notify_storage_silent :
      (st : Hub)
      → is_some (lookup node_id st.rows) ≡ true
      → notify_storage_health w node_id pools (notify_storage_health w node_id pools st)
        ≡ notify_storage_health w node_id pools st
  unfolding notify_storage_health
  notify_storage_silent st h = elim (Bool-cases (is_stored current previous)) [
    | inl e ↦ ap (notify_storage_health w node_id pools) (unchanged st e)
    | inr e ↦
        unchanged (notify_storage_health w node_id pools st) (
          rw (read_back e)
            (stored_self current (pool_states-Distinct (reported_pools pools) [] tt)))
  ]
    where
      current : List (ℕ × PoolState)
      current = pool_states (reported_pools pools) []

      previous : Option (List (ℕ × PoolState))
      previous = get_node_storage_signature node_id st.rows

      read_back :
          is_stored current previous ≡ false
          → get_node_storage_signature node_id (notify_storage_health w node_id pools st).rows
            ≡ some current
      read_back e =
          rw (notify_storage_health, e)
            (ap (get_node_storage_signature node_id) (pushed-rows w node_id _ _)
              ∙ signature-set node_id current st.rows h)

same_state_eq : (s t : PoolState) → same_state s t ≡ true → s ≡ t
same_state_eq online online h = refl
same_state_eq degraded degraded h = refl
same_state_eq faulted faulted h = refl
same_state_eq rebuilding rebuilding h = refl
same_state_eq online degraded h = cc
same_state_eq online faulted h = cc
same_state_eq online rebuilding h = cc
same_state_eq degraded online h = cc
same_state_eq degraded faulted h = cc
same_state_eq degraded rebuilding h = cc
same_state_eq faulted online h = cc
same_state_eq faulted degraded h = cc
same_state_eq faulted rebuilding h = cc
same_state_eq rebuilding online h = cc
same_state_eq rebuilding degraded h = cc
same_state_eq rebuilding faulted h = cc

-- The change of a pool that is first in the report.
own_change :
    (before : Option PoolState) (s to : PoolState)
    → (is_news before s && same_state s to) ≡ (same_state s to && is_news before to)
own_change before s to = elim (Bool-cases (same_state s to)) [
  | inl e ↦ rw (same_state_eq s to e, same_state_refl to) (ground arith)
  | inr e ↦ rw e (ground arith)
]

changes_news :
    (previous current : List (ℕ × PoolState)) (pool : ℕ) (to : PoolState)
    → Distinct current
    → any (λ c. c.pool == pool && same_state c.to to) (changes previous current)
      ≡ (was (lookup pool current) to && is_news (lookup pool previous) to)
unfolding changes lookup
changes_news previous [] pool to d = refl
changes_news previous ((k, s) ∷ rest) pool to d = elim (Bool-cases (k == pool)) [
  | inl e ↦
      let own : k ≡ pool = (==_iff k pool).0 e in
      let gone : lookup pool rest ≡ none = rw (← own) (lookup-keys k rest d.0) in
      ground (
        arith,
        e,
        changes_news previous rest pool to d.1,
        ap (λ o. was o to) gone,
        own_change (lookup k previous) s to,
        ap (λ j. is_news (lookup j previous) to) own,
      )
  | inr e ↦ ground (arith, e, changes_news previous rest pool to d.1)
]

-- A pool that was never stored counts as online.
abbrev pub stood : Option PoolState → PoolState
stood none = online
stood (some s) = s

is_news-stood :
    (before : Option PoolState) (to : PoolState)
    → is_news before to ≡ not (same_state (stood before) to)
unfolding is_news
is_news-stood none to = ground arith
is_news-stood (some online) to = ground arith
is_news-stood (some degraded) online = refl
is_news-stood (some degraded) degraded = refl
is_news-stood (some degraded) faulted = refl
is_news-stood (some degraded) rebuilding = refl
is_news-stood (some faulted) online = refl
is_news-stood (some faulted) degraded = refl
is_news-stood (some faulted) faulted = refl
is_news-stood (some faulted) rebuilding = refl
is_news-stood (some rebuilding) online = refl
is_news-stood (some rebuilding) degraded = refl
is_news-stood (some rebuilding) faulted = refl
is_news-stood (some rebuilding) rebuilding = refl

-- Of a report with one state for each pool, the changes that are told are exactly the pools whose
-- reported state is not the stored one, where a pool that is not stored counts as online; each is told
-- with its reported state.
pub changes_exact :
    (previous current : List (ℕ × PoolState)) (pool : ℕ) (to : PoolState)
    → Distinct current
    → any (λ c. c.pool == pool && same_state c.to to) (changes previous current)
      ≡ (was (lookup pool current) to && not (same_state (stood (lookup pool previous)) to))
changes_exact previous current pool to d =
    changes_news previous current pool to d
    ∙ ap (λ b. was (lookup pool current) to && b) (is_news-stood (lookup pool previous) to)

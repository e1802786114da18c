-- ===== src/NodeControl/Reach.antt =====
-- modules/node/index.js: whom `#notifyUpdatesAvailable` reaches.
use virgo_fleet.Base.{
  ℕ, ◌+◌, Bool, not, ◌&&◌, none, some, List, [], ◌∷◌, ◌≡◌, refl, ap, inl, inr, if◌then◌else◌,
  Bool-cases, Option-cases, has, keep, any, arith,
}
use virgo_fleet.NodeControl.State.{
  Updates, UpdateKey, Viewer, Hub, World, Effect, update_push, emit,
}
use virgo_fleet.NodeControl.Notifications.{
  includes, update_keys, stored_keys, set_node_update_signature, watches, members_away,
  push_updates, notify_updates_available, count,
}

-- How many notifications of updates a user was sent.
unfoldable pub tellings : ℕ → List Effect → ℕ
tellings user [] = 0
tellings user (update_push users node_id system apps ∷ log) =
    let before = tellings user log in if has users user then before + 1 else before
tellings user (_ ∷ log) = tellings user log

-- The members of a node; none where the query fails.
abbrev pub listed : World → ℕ → List ℕ
listed w node_id = elim (w.members_of node_id) [ none ↦ [] | some ids ↦ ids ]

has-keep : (p : ℕ → Bool) (xs : List ℕ) (x : ℕ) → has (keep p xs) x ≡ (p x && has xs x)
has-keep p [] x = ground arith
has-keep p (y ∷ ys) x = ground (arith, has-keep p ys x, here)
  where
    here : y ≡ x → p y ≡ p x
    here e = ap p e

has-members_away :
    (viewers : List Viewer) (ids : List ℕ) (x : ℕ)
    → has (members_away viewers ids) x ≡ (not (any (watches x) viewers) && has ids x)
unfolding members_away
has-members_away viewers ids x = has-keep (λ user_id. not (any (watches user_id) viewers)) ids x

tell_away :
    (w : World) (node_id : ℕ) (u : Updates) (st : Hub) (x : ℕ)
    → tellings x (push_updates w node_id u st).log
      ≡ tellings x st.log
        + (if not (any (watches x) w.viewers) && has (listed w node_id) x then 1 else 0)
unfolding push_updates tellings
tell_away w node_id u st x = elim (Option-cases (w.members_of node_id)) [
  | inl e ↦ rw (push_updates, listed, e) (ground arith)
  | inr (ids, e) ↦ rw (push_updates, listed, e) (away ids (members_away w.viewers ids) refl)
]
  where
    away :
        (ids chosen : List ℕ)
        → members_away w.viewers ids ≡ chosen
        → tellings x
            (elim chosen as (λ _. Hub) [
              | [] ↦ st
              | i ∷ is ↦ emit (update_push (i ∷ is) node_id (count u.system) (count u.apps)) st
            ]).log
          ≡ tellings x st.log + (if not (any (watches x) w.viewers) && has ids x then 1 else 0)
    away ids [] c = ground (arith, ap (λ l. has l x) c, has-members_away w.viewers ids x)
    away ids (i ∷ is) c = ground (arith, ap (λ l. has l x) c, has-members_away w.viewers ids x)

-- A report of updates sends each user one notification where it names a package version or an app
-- that the stored list lacks, the user is a member of the node, and no authenticated socket of the
-- namespace is the user's, and none otherwise.
pub notify_updates_exact :
    (before : UpdateKey → UpdateKey → Bool) (w : World) (node_id : ℕ) (u : Updates) (st : Hub)
    (x : ℕ)
    → tellings x (notify_updates_available before w node_id u st).log
      ≡ tellings x st.log
        + (if any
                (λ key. not (includes (stored_keys node_id st.rows) key))
                (update_keys before u (stored_keys node_id st.rows))
              && (not (any (watches x) w.viewers) && has (listed w node_id) x)
            then 1
            else 0)
unfolding notify_updates_available
notify_updates_exact before w node_id u st x = elim (Bool-cases news) [
  | inl e ↦ rw (notify_updates_available, e) (tell_away w node_id u stored x)
  | inr e ↦ rw (notify_updates_available, e) (omega arith)
]
  where
    news : Bool
    news =
        any (λ key. not (includes (stored_keys node_id st.rows) key))
          (update_keys before u (stored_keys node_id st.rows))

    stored : Hub
    stored = record st {
      rows =
          set_node_update_signature node_id (update_keys before u (stored_keys node_id st.rows))
            st.rows;
    }

-- ===== src/NodeControl/Silence.antt =====
-- modules/node/index.js: `#notifyUpdatesAvailable` and `#notifyStorageHealth` over repeated reports.
use virgo_fleet.Base.{
  ℕ, Bool, true, false, not, ◌||◌, Option, none, some, is_some, List, [], ◌∷◌, ◌++◌, ◌≡◌, refl, sym,
  ap, ◌⊎◌, inl, inr, ==_refl, Bool-cases, Option-cases, keep, any, lookup, lookup-revise, arith,
  ◌∙◌,
}
use virgo_fleet.NodeControl.State.{Updates, UpdateKey, app_key, system_key, Row, Hub, World}
use virgo_fleet.NodeControl.Notifications.{
  same_key, includes, is_app, system_side, app_side, place, sorted, update_keys, stored_keys,
  set_node_update_signature, push_updates, notify_updates_available,
}

same_key_refl : (k : UpdateKey) → same_key k k ≡ true
same_key_refl (app_key a) = ground arith
same_key_refl (system_key a v) = ground arith

same_key_eq : (j k : UpdateKey) → same_key j k ≡ true → j ≡ k
same_key_eq (app_key a) (app_key b) h = ground arith
same_key_eq (app_key a) (system_key b v) h = ground arith
same_key_eq (system_key a v) (app_key b) h = ground arith
same_key_eq (system_key a v) (system_key b u) h = ground arith

includes-append :
    (xs ys : List UpdateKey) (k : UpdateKey)
    → includes (xs ++ ys) k ≡ (includes xs k || includes ys k)
includes-append [] ys k = refl
includes-append (x ∷ xs) ys k = ground (arith, includes-append xs ys k)

module _ (before : UpdateKey → UpdateKey → Bool) where
  includes-place :
      (j : UpdateKey) (ks : List UpdateKey) (k : UpdateKey)
      → includes (place before j ks) k ≡ (same_key j k || includes ks k)
  unfolding place
  includes-place j [] k = refl
  includes-place j (i ∷ ks) k = ground (arith, includes-place j ks k)

  -- Sorting changes the order only.
  includes-sorted :
      (ks : List UpdateKey) (k : UpdateKey) → includes (sorted before ks) k ≡ includes ks k
  unfolding sorted
  includes-sorted [] k = refl
  includes-sorted (j ∷ ks) k =
      includes-place j (sorted before ks) k ∙ ap (λ b. same_key j k || b) (includes-sorted ks k)

  includes-update_keys :
      (u : Updates) (ks : List UpdateKey) (k : UpdateKey)
      → includes (update_keys before u ks) k
        ≡ (includes (system_side u.system ks) k || includes (app_side u.apps ks) k)
  unfolding update_keys
  includes-update_keys u ks k =
      includes-sorted (system_side u.system ks ++ app_side u.apps ks) k
      ∙ includes-append (system_side u.system ks) (app_side u.apps ks) k

includes-keep :
    (p : UpdateKey → Bool) (ks : List UpdateKey) (k : UpdateKey)
    → includes (keep p ks) k ≡ true
    → includes ks k ≡ true
includes-keep p [] k h = h
includes-keep p (j ∷ ks) k h = elim (Bool-cases (p j)) [
  | inl e ↦ ground (arith, e, h, includes-keep p ks k)
  | inr e ↦ ground (arith, e, h, includes-keep p ks k)
]

nothing_new :
    (xs ys : List UpdateKey)
    → ((k : UpdateKey) → includes xs k ≡ true → includes ys k ≡ true)
    → any (λ k. not (includes ys k)) xs ≡ false
nothing_new [] ys h = refl
nothing_new (x ∷ xs) ys h =
    rw (h x (ground (arith, same_key_refl x)), nothing_new xs ys (λ k e. h k (ground (arith, e))))

-- A side over the list that it went into names nothing that the list lacks.
or_true : (b : Bool) → (b || true) ≡ true
or_true true = refl
or_true false = refl

system_again :
    (o : Option (List (ℕ × ℕ))) (old new : List UpdateKey) (k : UpdateKey)
    → (includes (system_side o old) k ≡ true → includes new k ≡ true)
    → includes (system_side o new) k ≡ true
    → includes new k ≡ true
system_again none old new k went h = includes-keep (λ j. not (is_app j)) new k h
system_again (some xs) old new k went h = went h

app_again :
    (o : Option (List ℕ)) (old new : List UpdateKey) (k : UpdateKey)
    → (includes (app_side o old) k ≡ true → includes new k ≡ true)
    → includes (app_side o new) k ≡ true
    → includes new k ≡ true
app_again none old new k went h = includes-keep is_app new k h
app_again (some xs) old new k went h = went h

Or-cases : (a b : Bool) → (a || b) ≡ true → (a ≡ true) ⊎ (b ≡ true)
Or-cases true b h = inl refl
Or-cases false b h = inr h

repeated_keys :
    (before : UpdateKey → UpdateKey → Bool) (u : Updates) (ks : List UpdateKey) (k : UpdateKey)
    → includes (update_keys before u (update_keys before u ks)) k ≡ true
    → includes (update_keys before u ks) k ≡ true
repeated_keys before u ks k h =
    elim (Or-cases _ _ (sym (includes-update_keys before u new k) ∙ h)) [
      | inl side ↦
          system_again u.system ks new k
            (λ e. includes-update_keys before u ks k ∙ ground (arith, e)) side
      | inr side ↦
          app_again u.apps ks new k
            (λ e.
              includes-update_keys before u ks k
              ∙ rw e (or_true (includes (system_side u.system ks) k)))
            side
    ]
  where
    new : List UpdateKey
    new = update_keys before u ks

-- What is stored is read back.
stored_keys-set :
    (node_id : ℕ) (keys : List UpdateKey) (rows : List (ℕ × Row))
    → is_some (lookup node_id rows) ≡ true
    → stored_keys node_id (set_node_update_signature node_id keys rows) ≡ keys
unfolding stored_keys set_node_update_signature
stored_keys-set node_id keys rows h = elim (Option-cases (lookup node_id rows)) [
  | inl e ↦ cc (ap is_some e, h)
  | inr (r, e) ↦ rw (stored_keys, lookup-revise _ node_id rows, e, ==_refl node_id)
]

module _ (before : UpdateKey → UpdateKey → Bool) (w : World) (node_id : ℕ) (u : Updates) where
  -- The rows after a notification, and its log where the report names nothing new.
  notified-rows :
      (st : Hub)
      → (notify_updates_available before w node_id u st).rows
        ≡ set_node_update_signature node_id
            (update_keys before u (stored_keys node_id st.rows))
            st.rows
  unfolding notify_updates_available push_updates
  notified-rows st = ground arith

  silent-log :
      (st : Hub)
      → any
          (λ key. not (includes (stored_keys node_id st.rows) key))
          (update_keys before u (stored_keys node_id st.rows))
        ≡ false
      → (notify_updates_available before w node_id u st).log ≡ st.log
  unfolding notify_updates_available
  silent-log st h = rw h

  -- A report of updates that repeats the last one, of a node that has a row, is not pushed again,
  -- whatever sides of it are known.
  pub notify_updates_silent :
      (st : Hub)
      → is_some (lookup node_id st.rows) ≡ true
      → (notify_updates_available before w node_id u
          (notify_updates_available before w node_id u st)).log
        ≡ (notify_updates_available before w node_id u st).log
  notify_updates_silent st h = silent-log (notify_updates_available before w node_id u st) (
      rw read_back (
        nothing_new (update_keys before u new) new
          (repeated_keys before u (stored_keys node_id st.rows))))
    where
      new : List UpdateKey
      new = update_keys before u (stored_keys node_id st.rows)

      read_back : stored_keys node_id (notify_updates_available before w node_id u st).rows ≡ new
      read_back =
          ap (stored_keys node_id) (notified-rows st) ∙ stored_keys-set node_id new st.rows h

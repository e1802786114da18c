-- ===== src/Webrtc/Handshake/Bookkeeping.antt =====
-- src/utils/webrtc_signal.js: the bookkeeping that ends sessions or leaves their states alone.
use virgo_fleet.Base.{ℕ, ◌≡◌, refl, ◌∙◌, Bool, true, Option, none, some, arith, ◌==◌, if_keeps}
use virgo_fleet.Webrtc.State.{
  Session, SessionState, offer_received, open_sent, answer, connected, Reason, Message, Sockets,
  Signal,
}
use virgo_fleet.Webrtc.Events.{Event, offers, node_relays, node_connects}
use virgo_fleet.Webrtc.Sessions.{
  forget_session, store, tell_session_node, close_session, refresh_orphan_state,
}
use virgo_fleet.Webrtc.Lookups.{
  session_at, at-forget_session, at-store, at-tell_session_node, at-close_session,
}

-- A session that was `s` has ended or is in the same state.
abbrev pub IsQuiet : Session → Option Session → Type 0
IsQuiet s none = Unit {0}
IsQuiet s (some t) = t.state ≡ s.state

-- It is there, and in the same state.
abbrev pub IsPresent : Session → Option Session → Type 0
IsPresent s none = ⊥
IsPresent s (some t) = t.state ≡ s.state

pub IsPresent-IsQuiet : (s : Session) (o : Option Session) → IsPresent s o → IsQuiet s o
IsPresent-IsQuiet s none p = tt
IsPresent-IsQuiet s (some t) p = p

module _ (s : Session) (j : ℕ) where
  abbrev pub QuietIn : Signal → Type 0
  QuietIn st = IsQuiet s (session_at j st)

  abbrev pub PresentIn : Signal → Type 0
  PresentIn st = IsPresent s (session_at j st)

  pub forget_session-QuietIn : (id : ℕ) (st : Signal) → QuietIn st → QuietIn (forget_session id st)
  forget_session-QuietIn id st q =
      rw (at-forget_session j id st)
        (if_keeps (IsQuiet s) (id == j) none (session_at j st) (λ _. tt) (λ _. q))

  pub close_session-QuietIn :
      (w : Sockets) (id : ℕ) (r : Option Reason) (tell : Bool) (st : Signal)
      → QuietIn st
      → QuietIn (close_session w id r tell st)
  close_session-QuietIn w id r tell st q =
      rw (at-close_session j w id r tell st)
        (if_keeps (IsQuiet s) (id == j) none (session_at j st) (λ _. tt) (λ _. q))

  pub tell_session_node-QuietIn :
      (w : Sockets) (t : Session) (m : Message) (st : Signal)
      → QuietIn st
      → QuietIn (tell_session_node w t m st)
  tell_session_node-QuietIn w t m st q = rw (at-tell_session_node j w t m st) q

  module _ (P : Option Session → Type 0)
      (resp : (t u : Session) → u.state ≡ t.state → P (some t) → P (some u)) where
    pub store_keeps :
        (id : ℕ) (t u : Session) (st : Signal)
        → session_at id st ≡ some t
        → u.state ≡ t.state
        → P (session_at j st)
        → P (session_at j (store id u st))
    store_keeps id t u st e same_state p = rw (at-store j id u st) (
        if_keeps P (id == j) (some u) (session_at j st)
          (λ hit. resp t u same_state (rw (here hit) at p)) (λ _. p))
      where
        here : (id == j) ≡ true → session_at j st ≡ some t
        here hit = ground arith

  pub store-QuietIn :
      (id : ℕ) (t u : Session) (st : Signal)
      → session_at id st ≡ some t
      → u.state ≡ t.state
      → QuietIn st
      → QuietIn (store id u st)
  store-QuietIn = store_keeps (IsQuiet s) (λ t u e q. e ∙ q)

  pub store-PresentIn :
      (id : ℕ) (t u : Session) (st : Signal)
      → session_at id st ≡ some t
      → u.state ≡ t.state
      → PresentIn st
      → PresentIn (store id u st)
  store-PresentIn = store_keeps (IsPresent s) (λ t u e q. e ∙ q)

  pub refresh_orphan_state-QuietIn :
      (w : Sockets) (id : ℕ) (t u : Session) (st : Signal)
      → session_at id st ≡ some t
      → u.state ≡ t.state
      → QuietIn st
      → QuietIn (refresh_orphan_state w u id st)
  unfolding refresh_orphan_state
  refresh_orphan_state-QuietIn w id t u st e = store-QuietIn id t _ st e

  pub refresh_orphan_state-PresentIn :
      (w : Sockets) (id : ℕ) (t u : Session) (st : Signal)
      → session_at id st ≡ some t
      → u.state ≡ t.state
      → PresentIn st
      → PresentIn (refresh_orphan_state w u id st)
  unfolding refresh_orphan_state
  refresh_orphan_state-PresentIn w id t u st e = store-PresentIn id t _ st e

-- What an event may do to the state of the session `s` with the id `j`: end it, leave it, or take it
-- one step on. An offer is taken only from the session's own browser socket, and an answer or a
-- report of success only from a socket of the session's own node.
pub data Moves (w : Sockets) (e : Event) (j : ℕ) (s : Session) (o : Option Session) : Type 0 where
  ended : o ≡ none → Moves w e j s o
  stayed : (t : Session) → o ≡ some t → t.state ≡ s.state → Moves w e j s o
  offered :
      (t : Session) (node_id payload : ℕ)
      → o ≡ some t
      → e ≡ offers s.client_socket node_id j payload
      → s.state ≡ open_sent
      → t.state ≡ offer_received
      → Moves w e j s o
  answered :
      (t : Session) (n payload : ℕ)
      → o ≡ some t
      → e ≡ node_relays n answer j payload
      → w.node_of n ≡ s.node_id
      → s.state ≡ offer_received
      → t.state ≡ SessionState.answered
      → Moves w e j s o
  established :
      (t : Session) (n : ℕ)
      → o ≡ some t
      → e ≡ node_connects n j
      → w.node_of n ≡ s.node_id
      → t.state ≡ connected
      → Moves w e j s o

pub IsQuiet-Moves :
    (w : Sockets) (e : Event) (j : ℕ) (s : Session) (o : Option Session)
    → IsQuiet s o
    → Moves w e j s o
IsQuiet-Moves w e j s none q = ended refl
IsQuiet-Moves w e j s (some t) q = stayed t refl q

pub start_quiet : (j : ℕ) (s : Session) (st : Signal) → session_at j st ≡ some s → QuietIn s j st
start_quiet j s st e = rw e refl

pub start_present :
    (j : ℕ) (s : Session) (st : Signal) → session_at j st ≡ some s → PresentIn s j st
start_present j s st e = rw e refl

-- ===== src/Webrtc/Lookups.antt =====
-- src/utils/webrtc_signal.js: what each piece of bookkeeping leaves under a session id.
use virgo_fleet.Base.{
  ℕ, ◌≡◌, refl, ◌∙◌, inl, inr, Bool, List, [], ◌∷◌, Option, none, some, arith, ◌==◌, if◌then◌else◌,
  each, has, lookup, lookup-insert, lookup-erase, Option-cases, Bool-cases,
}
use virgo_fleet.Webrtc.State.{closes, Session, Reason, Message, Sockets, Signal}
use virgo_fleet.Webrtc.Sessions.{forget_session, store, tell_session_node, close_session}

abbrev pub session_at : ℕ → Signal → Option Session
session_at id st = lookup id st.sessions

pub at-forget_session :
    (j id : ℕ) (st : Signal)
    → session_at j (forget_session id st) ≡ (if id == j then none else session_at j st)
unfolding forget_session
at-forget_session j id st = elim (Option-cases (lookup id st.sessions)) [
  | inl e ↦ rw (e, forget_session) (ground arith)
  | inr (s, e) ↦ rw (e, forget_session) (lookup-erase id j st.sessions)
]

pub at-store :
    (j id : ℕ) (s : Session) (st : Signal)
    → session_at j (store id s st) ≡ (if id == j then some s else session_at j st)
at-store j id s st = lookup-insert id j s st.sessions

pub at-tell_session_node :
    (j : ℕ) (w : Sockets) (s : Session) (m : Message) (st : Signal)
    → session_at j (tell_session_node w s m st) ≡ session_at j st
unfolding tell_session_node
at-tell_session_node j w s m st = ground arith

pub at-close_session :
    (j : ℕ) (w : Sockets) (id : ℕ) (r : Option Reason) (tell : Bool) (st : Signal)
    → session_at j (close_session w id r tell st) ≡ (if id == j then none else session_at j st)
unfolding close_session
at-close_session j w id r tell st = elim (Option-cases (lookup id st.sessions)) [
  | inl e ↦ rw (e, close_session) (ground arith)
  | inr (s, e) ↦
      rw (e, close_session)
        (elim (Bool-cases tell) [
          | inl t ↦ rw t (
              at-forget_session j id _
              ∙ (ground (arith, at-tell_session_node j w s (closes id none) st)))
          | inr t ↦ rw t (at-forget_session j id _)
        ])
]

-- A loop that changes the entry of one id a round, by a function that does nothing the second time.
pub at-each :
    (f : ℕ → Signal → Signal) (g : Option Session → Option Session)
    → ((id : ℕ) (st : Signal) (j : ℕ)
        → session_at j (f id st) ≡ (if id == j then g (session_at j st) else session_at j st))
    → ((o : Option Session) → g (g o) ≡ g o)
    → (ids : List ℕ) (st : Signal) (j : ℕ)
    → session_at j (each f ids st) ≡ (if has ids j then g (session_at j st) else session_at j st)
unfolding each
at-each f g h idem [] st j = refl
at-each f g h idem (id ∷ ids) st j =
    ground (arith, h id st j, idem (session_at j st), at-each f g h idem ids (f id st) j)

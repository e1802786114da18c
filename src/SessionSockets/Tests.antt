-- ===== src/SessionSockets/Tests.antt =====
-- src/utils/session_sockets.js: the theorems at a user with two browsers.
use virgo_fleet.Base.{ℕ, ◌≡◌, refl, true, false, [], ◌∷◌, arith, lookup, members, has}
use virgo_fleet.SessionSockets.{
  Registry, start, disconnect_sessions, is_connected, step, sessions_revoked,
}
use virgo_fleet.SessionSockets.Soundness.{IsExclusive, step-IsExclusive}
use virgo_fleet.SessionSockets.Revocation.{was_closed, disconnect_sessions_lem}

abbrev user_of : ℕ → ℕ
user_of socket = 9

-- Sockets 1 and 2 of session 5.
abbrev two : Registry
two = record start {
  sockets_by_session = (5, 1 ∷ 2 ∷ []) ∷ [];
  owner = (1, 5) ∷ (2, 5) ∷ [];
  listening = 1 ∷ 2 ∷ [];
  sweeping = true;
}

two-IsExclusive : IsExclusive two
unfolding lookup
two-IsExclusive s r = ground arith

step-IsExclusive_example : IsExclusive (step user_of (sessions_revoked 100 (5 ∷ [])) two)
step-IsExclusive_example =
    step-IsExclusive user_of (sessions_revoked 100 (5 ∷ [])) two two-IsExclusive

member_of : has (members 5 two.sockets_by_session) 2 ≡ true
unfolding lookup
member_of = refl

disconnect_sessions_lem_example :
    (is_connected user_of 5 (disconnect_sessions user_of 100 (5 ∷ []) two) ≡ false)
    × (was_closed 2 (disconnect_sessions user_of 100 (5 ∷ []) two).out ≡ true)
disconnect_sessions_lem_example =
    disconnect_sessions_lem user_of 100 5 2 (5 ∷ []) two refl member_of

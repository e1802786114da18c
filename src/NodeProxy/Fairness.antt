-- ===== src/NodeProxy/Fairness.antt =====
-- utils/node_proxy.js: what is fair to the acknowledgements that clients hand over, and how a call
-- that is placed, answered or dropped keeps it.
use virgo_fleet.Base.{
  ℕ, ◌+◌, ◌≤◌, ◌<◌, Option, none, some, List, [], ◌∷◌, ◌≡◌, sym, ap, ◌==◌, if◌then◌else◌, lookup,
  lookup-insert, lookup-erase, arith, ◌∙◌,
}
use virgo_fleet.NodeProxy.State.{Call, Bridge, Answer, Effect, answered, Proxy, emit, settle}
use virgo_fleet.NodeProxy.Handlers.{place_call}

-- How many times an acknowledgement was called.
unfoldable pub answers : ℕ → List Effect → ℕ
answers a [] = 0
answers a (answered b answer ∷ log) =
    let before = answers a log in if b == a then before + 1 else before
answers a (_ ∷ log) = answers a log

abbrev pub ack_of : Option Call → Option ℕ
ack_of none = none
ack_of (some call) = some call.ack

-- A call waits exactly where its timer is armed, two calls have two acknowledgements, and what waits
-- was not answered; nothing was answered twice, or before it was handed over.
pub record IsFair (st : Proxy) : Type 0 where
  pub armed : (c : ℕ) → lookup c st.timers ≡ ack_of (lookup c st.calls)
  pub apart : (c d a : ℕ) → lookup c st.timers ≡ some a → lookup d st.timers ≡ some a → c ≡ d
  pub waits : (c a : ℕ) → lookup c st.timers ≡ some a → (a < st.next_ack) × (answers a st.log ≡ 0)
  pub once : (a : ℕ) → answers a st.log ≤ 1
  pub unborn : (a : ℕ) → st.next_ack ≤ a → answers a st.log ≡ 0

-- What the fairness of a state depends on.
pub record Alike (s t : Proxy) : Type 0 where
  pub calls : t.calls ≡ s.calls
  pub timers : t.timers ≡ s.timers
  pub next_ack : t.next_ack ≡ s.next_ack
  pub log : (a : ℕ) → answers a t.log ≡ answers a s.log

pub Alike-IsFair : {s t : Proxy} → Alike s t → IsFair s → IsFair t
Alike-IsFair e f = record {
  armed = λ c. ap (lookup c) e.timers ∙ f.armed c ∙ ap (λ m. ack_of (lookup c m)) (sym e.calls);
  apart = λ c d a p q.
      f.apart c d a (ap (lookup c) (sym e.timers) ∙ p) (ap (lookup d) (sym e.timers) ∙ q);
  waits =
      λ c a p. ground (arith, f.waits c a (ap (lookup c) (sym e.timers) ∙ p), e.log a, e.next_ack);
  once = λ a. omega (arith, e.log a, f.once a);
  unborn = λ a h. e.log a ∙ f.unborn a (omega (arith, e.next_ack));
}

-- The call is over, unanswered.
pub settle-IsFair : (call_id : ℕ) (s : Proxy) → IsFair s → IsFair (settle call_id s)
unfolding settle
settle-IsFair call_id s f = record {
  armed = λ c.
      ground (arith, lookup-erase call_id c s.timers, lookup-erase call_id c s.calls, f.armed c);
  apart = λ c d a p q.
      f.apart c d a (ground (arith, p, lookup-erase call_id c s.timers))
        (ground (arith, q, lookup-erase call_id d s.timers));
  waits = λ c a p. f.waits c a (ground (arith, p, lookup-erase call_id c s.timers));
  once = f.once;
  unborn = f.unborn;
}

-- The call is over, and its acknowledgement is called.
pub answer-IsFair :
    (call_id a : ℕ) (answer : Answer) (s : Proxy)
    → lookup call_id s.timers ≡ some a
    → IsFair s
    → IsFair (emit (answered a answer) (settle call_id s))
unfolding settle answers
answer-IsFair call_id a answer s h f = record {
  armed = (settle-IsFair call_id s f).armed;
  apart = (settle-IsFair call_id s f).apart;
  waits = λ c b p.
      ground (arith, p, lookup-erase call_id c s.timers, f.waits c b, h, f.apart c call_id b);
  once = λ b. ground (arith, f.once b, f.waits call_id a h);
  unborn = λ b p. ground (arith, p, f.unborn b p, f.waits call_id a h);
}

pub place-IsFair :
    (b : Bridge) (call_id event args : ℕ) (s : Proxy)
    → lookup call_id s.calls ≡ none
    → IsFair s
    → IsFair (place_call b call_id event args s)
unfolding place_call answers
place-IsFair b call_id event args s fresh f = record {
  armed = λ c. ground (
    arith,
    f.armed c,
    lookup-insert call_id c s.next_ack s.timers,
    lookup-insert call_id c
        (record { node_socket = b.node_socket; session_id = b.session_id; ack = s.next_ack })
        s.calls,
  );
  apart = λ c d a p q. ground (
    arith,
    p,
    q,
    lookup-insert call_id c s.next_ack s.timers,
    lookup-insert call_id d s.next_ack s.timers,
    f.apart c d a,
    f.waits c a,
    f.waits d a,
  );
  waits = λ c a p.
      ground
        (arith, p, lookup-insert call_id c s.next_ack s.timers, f.waits c a, f.unborn s.next_ack);
  once = f.once;
  unborn = λ a p. f.unborn a (omega (arith, p));
}

-- ===== src/RateLimit/Window.antt =====
-- src/utils/socket_rate_limit.js: what a limiter lets through in one window.
use Prim.Native.Nat.{min, ◌-◌}
use virgo_fleet.Base.{
  ℕ, suc, ◌+◌, ◌≤◌, ◌<◌, ◌≡◌, refl, Bool, true, false, List, [], ◌∷◌, Option, none, some, arith,
  leb, lookup, lookup-insert, length, Bool-cases, tests, leb→le, inl, inr, ap,
}
use virgo_fleet.RateLimit.{Bucket, Buckets, Limits, fresh_bucket, consume_from, consume}

-- The answers to attempts on one key at the times of a list.
unfoldable pub answers : Limits → ℕ → List ℕ → Buckets → List Bool
answers limits key [] buckets = []
answers limits key (now ∷ times) buckets =
    let (buckets', answer) = consume limits now key buckets in
    answer ∷ answers limits key times buckets'

abbrev pub passed : List Bool → ℕ
passed [] = 0
passed (true ∷ l) = suc (passed l)
passed (false ∷ l) = passed l

abbrev pub AllBefore : ℕ → List ℕ → Type 0
AllBefore limit [] = Unit {0}
AllBefore limit (t ∷ ts) = (t < limit) × AllBefore limit ts

-- No bucket counts at this time.
abbrev pub IsClosed : ℕ → Option Bucket → Type 0
IsClosed now none = Unit {0}
IsClosed now (some b) = b.expires_at ≤ now

-- One attempt on a key whose bucket is still open.
pub consume_open :
    (limits : Limits) (now key : ℕ) (buckets : Buckets) (b : Bucket)
    → lookup key buckets ≡ some b
    → now < b.expires_at
    → ((consume limits now key buckets).1 ≡ leb (suc b.count) limits.max)
      × (lookup key (consume limits now key buckets).0 ≡ some (record b { count = suc b.count }))
unfolding consume
consume_open limits now key buckets b e h =
    let open_bucket : leb b.expires_at now ≡ false = ground arith in
    rw (e, consume_from, open_bucket)
      (refl, ground (arith, lookup-insert key key (record b { count = suc b.count }) buckets))

-- One attempt on a key that has no bucket, or one that has run out.
pub consume_closed :
    (limits : Limits) (now key : ℕ) (buckets : Buckets)
    → IsClosed now (lookup key buckets)
    → ((consume limits now key buckets).1 ≡ true)
      × (lookup key (consume limits now key buckets).0
          ≡ some (record { count = 1; expires_at = now + limits.window_ms }))
unfolding consume
consume_closed limits now key buckets h =
    ground (arith, lookup-insert key key (fresh_bucket limits now) buckets)

-- In a window that has a bucket, as many attempts pass as are left.
passed_open :
    (limits : Limits) (key : ℕ) (times : List ℕ) (buckets : Buckets) (b : Bucket)
    → lookup key buckets ≡ some b
    → AllBefore b.expires_at times
    → passed (answers limits key times buckets) ≡ min (length times) (limits.max - b.count)
unfolding answers
passed_open limits key [] buckets b e h = omega arith
passed_open limits key (now ∷ times) buckets b e h =
    let (answer, next) = consume_open limits now key buckets b e h.0 in
    let rest =
      passed_open limits key times (consume limits now key buckets).0
        (record b { count = suc b.count }) next h.1 in
    elim (Bool-cases (leb (suc b.count) limits.max)) [
      | inl more ↦ rw (answer, more) (omega (tests, rest, leb→le _ _ more))
      | inr spent ↦ rw (answer, spent) (ground (arith, rest))
    ]

-- Of the attempts on a key within one window, the first `max` pass and no later one does; the
-- window begins at an attempt that finds no bucket or one that has run out. (The first attempt
-- passes also where `max` is 0.)
pub passed-window :
    (limits : Limits) (key begin : ℕ) (times : List ℕ) (buckets : Buckets)
    → IsClosed begin (lookup key buckets)
    → AllBefore (begin + limits.window_ms) times
    → passed (answers limits key (begin ∷ times) buckets)
      ≡ suc (min (length times) (limits.max - 1))
unfolding answers
passed-window limits key begin times buckets c h =
    let (answer, next) = consume_closed limits begin key buckets c in
    rw answer (ap suc (passed_open limits key times (consume limits begin key buckets).0 _ next h))

-- ===== src/RateLimit.antt =====
-- src/utils/socket_rate_limit.js: fixed-window attempt counters. A key is a number; the time of a
-- call is an argument.
pub mod Window
pub mod Pruning
pub mod Tests
use virgo_fleet.Base.{
  ℕ, suc, ◌+◌, Bool, true, List, [], ◌∷◌, Option, none, some, leb, if◌then◌else◌, lookup, insert,
}

pub record Bucket : Type 0 where
  pub count : ℕ
  pub expires_at : ℕ

abbrev pub Buckets : Type 0
Buckets = List (ℕ × Bucket)

pub record Limits : Type 0 where
  pub window_ms : ℕ
  pub max : ℕ

-- The sweep of the interval timer.
pub prune : ℕ → Buckets → Buckets
prune now [] = []
prune now ((key, bucket) ∷ rest) =
    if leb bucket.expires_at now then prune now rest else (key, bucket) ∷ prune now rest

module _ (limits : Limits) where
  fresh_bucket : ℕ → Bucket
  fresh_bucket now = record { count = 1; expires_at = now + limits.window_ms }

  consume_from : ℕ → ℕ → Option Bucket → Buckets → Buckets × Bool
  unfolding fresh_bucket
  consume_from now key none buckets = (insert key (fresh_bucket now) buckets, true)
  consume_from now key (some bucket) buckets =
      if leb bucket.expires_at now then (insert key (fresh_bucket now) buckets, true) else (
        insert key (record bucket { count = suc bucket.count }) buckets,
        leb (suc bucket.count) limits.max,
      )

  -- `consume(key)`: the attempt is recorded, and the answer says whether it is within the limit.
  unfoldable pub consume : ℕ → ℕ → Buckets → Buckets × Bool
  unfolding consume_from
  consume now key buckets = consume_from now key (lookup key buckets) buckets

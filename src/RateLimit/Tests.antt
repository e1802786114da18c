-- ===== src/RateLimit/Tests.antt =====
-- src/utils/socket_rate_limit.js: the theorems at three attempts in ten milliseconds.
use virgo_fleet.Base.{◌≡◌, refl, [], ◌∷◌, arith, lookup}
use virgo_fleet.RateLimit.{Buckets, Limits, prune}
use virgo_fleet.RateLimit.Window.{IsClosed, answers, passed, passed-window}
use virgo_fleet.RateLimit.Pruning.{Unique, answers-prune}

abbrev limits : Limits
limits = record { window_ms = 10; max = 2 }

-- Key 7 has a bucket that has run out, key 8 one that has not.
abbrev buckets : Buckets
buckets = (7, record { count = 9; expires_at = 3 }) ∷ (8, record { count = 1; expires_at = 9 }) ∷ []

IsClosed-bucket : IsClosed 5 (lookup 7 buckets)
unfolding lookup
IsClosed-bucket = ground arith

passed-window_example : passed (answers limits 7 (5 ∷ 6 ∷ 14 ∷ []) buckets) ≡ 2
passed-window_example =
    passed-window limits 7 5 (6 ∷ 14 ∷ []) buckets IsClosed-bucket
      (ground arith, (ground arith, tt))

distinct : Unique buckets
distinct = (refl, (refl, tt))

answers-prune_example :
    answers limits 8 (5 ∷ 6 ∷ []) (prune 5 buckets) ≡ answers limits 8 (5 ∷ 6 ∷ []) buckets
answers-prune_example =
    answers-prune limits 5 8 (5 ∷ 6 ∷ []) buckets distinct (ground arith, (ground arith, tt))

-- ===== src/Admin/Traffic.antt =====
-- internal/admin/stats.go: the bytes of a user in the last ten minutes, a bucket for each second.
-- A second is counted from 1970.
pub mod Window
pub mod Sums
use quic_lab.Common.{
  ℕ, ◌+◌, ◌/◌, ◌%◌, ◌^◌, Bool, ◌&&◌, Option, none, some, List, [], ◌∷◌, ltb, leb, ◌==◌,
  if◌then◌else◌, get_elem?, set, replicate,
}
use quic_lab.Net.{ℤ, pos, negsuc}

pub record Bucket : Type 0 where
  pub second : ℕ
  pub tx : ℕ  -- uint64
  pub rx : ℕ

abbrev pub bucket_count : ℕ
bucket_count = 600

abbrev pub positive : ℤ → ℕ
positive (pos n) = n
positive (negsuc n) = 0

abbrev pub started : ℕ → Bucket
started now = record { second = now; tx = 0; rx = 0 }

abbrev pub count_bytes : ℤ → ℤ → Bucket → Bucket
count_bytes tx rx b = record b {
  tx = (b.tx + positive tx) % 2 ^ 64;
  rx = (b.rx + positive rx) % 2 ^ 64;
}

abbrev pub fill : ℕ → ℤ → ℤ → Bucket → Bucket
fill now tx rx b = count_bytes tx rx (if b.second == now then b else started now)

abbrev pub add_to : ℕ → ℤ → ℤ → List Bucket → Option Bucket → List Bucket
add_to now tx rx bs none = bs
add_to now tx rx bs (some b) = set bs (now % bucket_count) (fill now tx rx b)

-- userTraffic.add on the array of 600 buckets.
unfoldable pub add : ℕ → ℤ → ℤ → List Bucket → List Bucket
add now tx rx bs = add_to now tx rx bs (get_elem? bs (now % bucket_count))

pub record UserStats : Type 0 where
  pub rate_tx : ℕ
  pub rate_rx : ℕ
  pub tx : ℕ
  pub rx : ℕ

abbrev pub no_stats : UserStats
no_stats = record { rate_tx = 0; rate_rx = 0; tx = 0; rx = 0 }

-- `second > now - width && second <= now`.
abbrev pub is_within : ℕ → ℕ → Bucket → Bool
is_within width now b = ltb now (b.second + width) && leb b.second now

abbrev pub count_rate : ℕ → Bucket → UserStats → UserStats
count_rate now b out =
    if ltb now (b.second + 5)
    then record out {
      rate_tx = (out.rate_tx + b.tx) % 2 ^ 64;
      rate_rx = (out.rate_rx + b.rx) % 2 ^ 64;
    }
    else out

abbrev pub count_bucket : ℕ → Bucket → UserStats → UserStats
count_bucket now b out =
    if is_within bucket_count now b
    then count_rate now b
        (record out { tx = (out.tx + b.tx) % 2 ^ 64; rx = (out.rx + b.rx) % 2 ^ 64 })
    else out

unfoldable pub sum_buckets : ℕ → List Bucket → UserStats → UserStats
sum_buckets now [] out = out
sum_buckets now (b ∷ bs) out = sum_buckets now bs (count_bucket now b out)

-- The numbers of Store.snapshot for one user.
unfoldable pub snapshot : ℕ → List Bucket → UserStats
unfolding sum_buckets
snapshot now bs =
    let out = sum_buckets now bs no_stats in
    record out { rate_tx = out.rate_tx / 5; rate_rx = out.rate_rx / 5 }

abbrev pub empty_buckets : List Bucket
empty_buckets = replicate bucket_count (started 0)

-- What one call of `add` is given: the second and the bytes both ways.
pub record Report : Type 0 where
  pub second : ℕ
  pub sent : ℤ
  pub received : ℤ

unfoldable pub add_all : List Report → List Bucket → List Bucket
unfolding add
add_all [] bs = bs
add_all (r ∷ rs) bs = add_all rs (add r.second r.sent r.received bs)

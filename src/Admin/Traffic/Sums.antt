-- ===== src/Admin/Traffic/Sums.antt =====
-- internal/admin/stats.go: a snapshot adds up the buckets of its window.
use mathlib.Core.Path.{subst}
use quic_lab.Common.{
  ℕ, zero, suc, ◌+◌, ◌/◌, ◌%◌, ◌^◌, ◌≤◌, ◌<◌, ◌≡◌, refl, inr, Bool, true, false, some, List, [],
  ◌∷◌, arith, ◌==◌, if◌then◌else◌, get_elem?, replicate, length-replicate,
}
use quic_lab.Admin.Traffic.{
  Bucket, bucket_count, started, UserStats, no_stats, count_bucket, sum_buckets, snapshot,
  empty_buckets, Report, add_all,
}
use quic_lab.Admin.Traffic.Window.{part, total, in_window, InOrder, IsRing, add_all-total}

-- The counters that `snapshot` adds up.
abbrev pub counted : ℕ → Bool → UserStats → ℕ
counted width true out = if width == 5 then out.rate_tx else out.tx
counted width false out = if width == 5 then out.rate_rx else out.rx

sum_buckets-total :
    (now : ℕ) (up : Bool) (bs : List Bucket) (out : UserStats)
    → ((counted bucket_count up (sum_buckets now bs out)) % 2 ^ 64
        ≡ (counted bucket_count up out + total bucket_count now up bs) % 2 ^ 64)
      × ((counted 5 up (sum_buckets now bs out)) % 2 ^ 64
          ≡ (counted 5 up out + total 5 now up bs) % 2 ^ 64)
unfolding sum_buckets total
sum_buckets-total now up [] out = (omega arith, omega arith)
sum_buckets-total now up (b ∷ bs) out =
    let (long, short) = sum_buckets-total now up bs (count_bucket now b out) in
    let (one, two) = step up in (omega (arith, long, one), omega (arith, short, two))
  where
    step :
        (up : Bool)
        → (counted bucket_count up (count_bucket now b out) % 2 ^ 64
            ≡ (counted bucket_count up out + part bucket_count now up b) % 2 ^ 64)
          × (counted 5 up (count_bucket now b out) % 2 ^ 64
              ≡ (counted 5 up out + part 5 now up b) % 2 ^ 64)
    step true = (ground arith, ground arith)
    step false = (ground arith, ground arith)

IsCounter : UserStats → Type 0
IsCounter out =
    (out.tx < 2 ^ 64) × (out.rx < 2 ^ 64) × (out.rate_tx < 2 ^ 64) × (out.rate_rx < 2 ^ 64)

sum_buckets-IsCounter :
    (now : ℕ) (bs : List Bucket) (out : UserStats)
    → IsCounter out
    → IsCounter (sum_buckets now bs out)
unfolding sum_buckets IsCounter
sum_buckets-IsCounter now [] out h = h
sum_buckets-IsCounter now (b ∷ bs) out h =
    sum_buckets-IsCounter now bs (count_bucket now b out) (ground arith)

total-empty : (width now n : ℕ) (up : Bool) → total width now up (replicate n (started 0)) ≡ 0
unfolding total
total-empty width now zero up = refl
total-empty width now (suc n) true = ground (arith, total-empty width now n true)
total-empty width now (suc n) false = ground (arith, total-empty width now n false)

empty_buckets-IsRing : IsRing 0 empty_buckets
unfolding IsRing
empty_buckets-IsRing = (
  length-replicate 600 (started 0),
  λ i. λ b. λ h.
      let (early, none_sent, none_received) = blank 600 i b h in
      (early, inr (none_sent, none_received)),
)
  where
    blank :
        (n i : ℕ) (b : Bucket)
        → get_elem? (replicate n (started 0)) i ≡ some b
        → (b.second ≤ 0) × (b.tx ≡ 0) × (b.rx ≡ 0)
    blank zero i b h = cc
    blank (suc n) zero b h =
        let this : started 0 ≡ b = cc in
        subst (λ x. (x.second ≤ 0) × (x.tx ≡ 0) × (x.rx ≡ 0)) {x = started 0} {y = b} this
          (omega arith, refl, refl)
    blank (suc n) (suc i) b h = blank n i b h

-- Take reports that came in the order of their seconds, the last no later than `now`, into buckets
-- that were empty. The totals of a snapshot at `now` are the bytes that were reported in the last
-- 600 seconds, both ways and modulo 2 ^ 64, and the rates are a fifth of those of the last 5 seconds.
pub snapshot-add_all :
    (now : ℕ) (rs : List Report)
    → InOrder 0 rs now
    → ((snapshot now (add_all rs empty_buckets)).tx ≡ in_window 600 now true rs % 2 ^ 64)
      × ((snapshot now (add_all rs empty_buckets)).rx ≡ in_window 600 now false rs % 2 ^ 64)
      × ((snapshot now (add_all rs empty_buckets)).rate_tx ≡ in_window 5 now true rs % 2 ^ 64 / 5)
      × ((snapshot now (add_all rs empty_buckets)).rate_rx ≡ in_window 5 now false rs % 2 ^ 64 / 5)
unfolding snapshot IsCounter
snapshot-add_all now rs order =
    let bs = add_all rs empty_buckets in
    let (tx, rx, rate_tx, rate_rx) =
      sum_buckets-IsCounter now bs no_stats (omega arith, omega arith, omega arith, omega arith) in
    let (long_tx, short_tx) = sum_buckets-total now true bs no_stats in
    let (long_rx, short_rx) = sum_buckets-total now false bs no_stats in
    (
      omega (arith, tx, long_tx, all 600 true (omega arith)),
      omega (arith, rx, long_rx, all 600 false (omega arith)),
      omega (arith, rate_tx, short_tx, all 5 true (omega arith)),
      omega (arith, rate_rx, short_rx, all 5 false (omega arith)),
    )
  where
    all :
        (width : ℕ) (up : Bool)
        → width ≤ bucket_count
        → total width now up (add_all rs empty_buckets) % 2 ^ 64
          ≡ in_window width now up rs % 2 ^ 64
    all width up w =
        let sum = add_all-total width 0 now up rs empty_buckets w order empty_buckets-IsRing in
        let nothing = total-empty width now 600 up in omega (arith, sum, nothing)

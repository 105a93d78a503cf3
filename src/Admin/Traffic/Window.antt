-- ===== src/Admin/Traffic/Window.antt =====
-- internal/admin/stats.go: the ring of buckets counts what was reported in the window.
use mathlib.Core.Path.{subst}
use quic_lab.Common.{
  ℕ, zero, suc, ◌+◌, ◌%◌, ◌^◌, ◌≤◌, ◌<◌, ◌≡◌, refl, sym, ap, ◌∙◌, ◌⊎◌, inl, inr, Bool, true, false,
  some, List, [], ◌∷◌, arith, ltb, ◌==◌, if◌then◌else◌, ==_iff, Bool-cases, length, get_elem?, set,
  length-set, get_elem?-set_ne, get_elem?-set_hit,
}
use quic_lab.Admin.Traffic.{Bucket, bucket_count, positive, fill, add, is_within, Report, add_all}

-- The two counters of a bucket and of a report.
abbrev pub amount : Bool → Bucket → ℕ
amount true b = b.tx
amount false b = b.rx

abbrev pub reported : Bool → Report → ℕ
reported true r = positive r.sent
reported false r = positive r.received

abbrev pub part : ℕ → ℕ → Bool → Bucket → ℕ
part width now up b = if is_within width now b then amount up b else 0

unfoldable pub total : ℕ → ℕ → Bool → List Bucket → ℕ
total width now up [] = 0
total width now up (b ∷ bs) = part width now up b + total width now up bs

-- The bytes that were reported in the last `width` seconds.
abbrev pub in_window : ℕ → ℕ → Bool → List Report → ℕ
in_window width now up [] = 0
in_window width now up (r ∷ rs) =
    (if ltb now (r.second + width) then reported up r else 0) + in_window width now up rs

-- Reports in the order of their seconds, from `first` on and up to `now`.
abbrev pub InOrder : ℕ → List Report → ℕ → Type 0
InOrder first [] now = first ≤ now
InOrder first (r ∷ rs) now = (first ≤ r.second) × InOrder r.second rs now

total-set :
    (width now : ℕ) (up : Bool) (bs : List Bucket) (i : ℕ) (old new : Bucket)
    → get_elem? bs i ≡ some old
    → total width now up (set bs i new) + part width now up old
      ≡ total width now up bs + part width now up new
unfolding total
total-set width now up [] i old new h = cc
total-set width now up (b ∷ bs) zero old new h =
    let this : b ≡ old = cc in
    subst
      (λ x.
        part width now up new + total width now up bs + part width now up x
        ≡ part width now up b + total width now up bs + part width now up new)
      {x = b} {y = old} this (omega arith)
total-set width now up (b ∷ bs) (suc i) old new h =
    omega (arith, total-set width now up bs i old new h)

-- A bucket is of its own slot or has no bytes, and none is later than `last`.
unfoldable pub IsRing : ℕ → List Bucket → Type 0
IsRing last bs =
    (length bs ≡ bucket_count)
    × ((i : ℕ) (b : Bucket)
        → get_elem? bs i ≡ some b
        → (b.second ≤ last) × ((b.second % bucket_count ≡ i) ⊎ ((b.tx ≡ 0) × (b.rx ≡ 0))))

part-fill :
    (width now later : ℕ) (up : Bool) (r : Report) (b : Bucket)
    → width ≤ bucket_count
    → r.second ≤ later
    → b.second ≤ r.second
    → (b.second % bucket_count ≡ r.second % bucket_count) ⊎ ((b.tx ≡ 0) × (b.rx ≡ 0))
    → part width later up (fill r.second r.sent r.received b) % 2 ^ 64
      ≡ (part width later up b + (if ltb later (r.second + width) then reported up r else 0))
        % 2 ^ 64
part-fill width now later true r b w h k (inl e) = ground arith
part-fill width now later false r b w h k (inl e) = ground arith
part-fill width now later true r b w h k (inr (t, x)) = ground arith
part-fill width now later false r b w h k (inr (t, x)) = ground arith

slot :
    (last i : ℕ) (bs : List Bucket)
    → IsRing last bs
    → i < bucket_count
    → (b : Bucket) × (get_elem? bs i ≡ some b)
unfolding IsRing
slot last i bs (size, good) h = there bs i (omega (arith, size))
  where
    there : (bs : List Bucket) (i : ℕ) → i < length bs → (b : Bucket) × (get_elem? bs i ≡ some b)
    there [] i h = absurd (omega arith)
    there (b ∷ bs) zero h = (b, refl)
    there (b ∷ bs) (suc i) h = there bs i (omega arith)

filled_slot :
    (last : ℕ) (r : Report) (b : Bucket)
    → last ≤ r.second
    → ((fill r.second r.sent r.received b).second ≤ r.second)
      × ((fill r.second r.sent r.received b).second % bucket_count ≡ r.second % bucket_count)
filled_slot last r b h = ground arith

set-IsRing :
    (last : ℕ) (r : Report) (b : Bucket) (bs : List Bucket)
    → last ≤ r.second
    → get_elem? bs (r.second % bucket_count) ≡ some b
    → IsRing last bs
    → IsRing r.second (set bs (r.second % bucket_count) (fill r.second r.sent r.received b))
unfolding IsRing
set-IsRing last r b bs h found (size, good) = (
  length-set bs (r.second % bucket_count) _ ∙ size,
  λ i. λ c. λ k. elim (Bool-cases (r.second % bucket_count == i)) [
    | inl e ↦
        let here = (==_iff (r.second % bucket_count) i).0 e in
        let new : some (fill r.second r.sent r.received b) ≡ some c =
          sym (get_elem?-set_hit bs (r.second % bucket_count) b _ found)
          ∙ ap (get_elem? (set bs (r.second % bucket_count) (fill r.second r.sent r.received b)))
              here
          ∙ k in
        let same_bucket : fill r.second r.sent r.received b ≡ c = cc in
        let (on_time, own) = filled_slot last r b h in
        subst
          (λ x. (x.second ≤ r.second) × ((x.second % bucket_count ≡ i) ⊎ ((x.tx ≡ 0) × (x.rx ≡ 0))))
          {x = fill r.second r.sent r.received b} {y = c} same_bucket (on_time, inl (own ∙ here))
    | inr e ↦
        let there : get_elem? bs i ≡ some c =
          sym (get_elem?-set_ne bs (r.second % bucket_count) i _ (ground arith)) ∙ k in
        let (older, own) = good i c there in (omega (arith, older, h), own)
  ],
)

add-total :
    (width last later : ℕ) (up : Bool) (r : Report) (bs : List Bucket)
    → width ≤ bucket_count
    → last ≤ r.second
    → r.second ≤ later
    → IsRing last bs
    → IsRing r.second (add r.second r.sent r.received bs)
      × (total width later up (add r.second r.sent r.received bs) % 2 ^ 64
          ≡ (total width later up bs + (if ltb later (r.second + width) then reported up r else 0))
            % 2 ^ 64)
unfolding add IsRing
add-total width last later up r bs w h k ring =
    let (b, found) = slot last (r.second % bucket_count) bs ring (omega arith) in
    rw found (set-IsRing last r b bs h found ring, sums b found)
  where
    sums :
        (b : Bucket)
        → get_elem? bs (r.second % bucket_count) ≡ some b
        → total width later up
              (set bs (r.second % bucket_count) (fill r.second r.sent r.received b))
            % 2 ^ 64
          ≡ (total width later up bs + (if ltb later (r.second + width) then reported up r else 0))
            % 2 ^ 64
    sums b found =
        let (older, own) = ring.1 (r.second % bucket_count) b found in
        let replaced =
          total-set width later up bs (r.second % bucket_count) b
            (fill r.second r.sent r.received b) found in
        let filled = part-fill width r.second later up r b w k (omega (arith, older, h)) own in
        omega (arith, replaced, filled)

pub add_all-total :
    (width last later : ℕ) (up : Bool) (rs : List Report) (bs : List Bucket)
    → width ≤ bucket_count
    → InOrder last rs later
    → IsRing last bs
    → total width later up (add_all rs bs) % 2 ^ 64
      ≡ (total width later up bs + in_window width later up rs) % 2 ^ 64
unfolding add_all
add_all-total width last later up [] bs w order ring = omega arith
add_all-total width last later up (r ∷ rs) bs w (h, order) ring =
    let (ring', step) =
      add-total width last later up r bs w h (InOrder-le r.second rs later order) ring in
    let rest =
      add_all-total width r.second later up rs (add r.second r.sent r.received bs) w order ring' in
    omega (arith, step, rest)
  where
    InOrder-le : (first : ℕ) (rs : List Report) (now : ℕ) → InOrder first rs now → first ≤ now
    InOrder-le first [] now h = h
    InOrder-le first (r ∷ rs) now (h, order) = omega (arith, InOrder-le r.second rs now order)

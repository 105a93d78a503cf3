-- ===== src/DebugCapture/Blocks.antt =====
-- internal/debugcapture/pcapng.go: the form of a block, and what the reader makes of a pcap stream.
use quic_lab.Common.{
  ℕ, ◌+◌, ◌-◌, ◌*◌, ◌/◌, ◌%◌, ◌^◌, ◌<◌, ◌≡◌, refl, ap, ◌∙◌, List, [], ◌++◌, append_assoc,
  append-nil, arith, length, take, drop, replicate, length-append, take_prefix, drop_prefix,
  length-replicate,
}
use quic_lab.Common.Bytes.{
  put_be, be_from, put_le, get_le, be_at, le_at, be_from-put_be, get_le-put_le, length-put_be,
  length-put_le,
}
use quic_lab.DebugCapture.{padding, block}
use mathlib.Core.Path.{subst}

abbrev pub block_size : List ℕ → ℕ
block_size body = (length body + 3) / 4 * 4 + 12

pub length-block : (kind : ℕ) (body : List ℕ) → length (block kind body) ≡ block_size body
unfolding block
length-block kind body = omega (
  arith,
  length-append (put_le 4 kind) (
      put_le 4 (block_size body % 2 ^ 32)
      ++ (body ++ (replicate (padding (length body)) 0 ++ put_le 4 (block_size body % 2 ^ 32)))),
  length-append (put_le 4 (block_size body % 2 ^ 32))
      (body ++ (replicate (padding (length body)) 0 ++ put_le 4 (block_size body % 2 ^ 32))),
  length-append body (replicate (padding (length body)) 0 ++ put_le 4 (block_size body % 2 ^ 32)),
  length-append (replicate {A = ℕ} (padding (length body)) 0) (put_le 4 (block_size body % 2 ^ 32)),
  length-replicate {A = ℕ} (padding (length body)) 0,
  length-put_le 4 kind,
  length-put_le 4 (block_size body % 2 ^ 32),
)

-- A number that was put behind `front` is read back there.
pub le_at-put_le :
    (k v i : ℕ) (front back : List ℕ)
    → length front ≡ i
    → v < 256 ^ k
    → le_at k i (front ++ (put_le k v ++ back)) ≡ v
unfolding le_at
le_at-put_le k v i front back h bound =
    subst (λ j. get_le (take k (drop j (front ++ (put_le k v ++ back)))) ≡ v) h
      (rw (drop_prefix front (put_le k v ++ back)) (
        subst (λ j. get_le (take j (put_le k v ++ back)) ≡ v) (length-put_le k v)
          (rw (take_prefix (put_le k v) back) (get_le-put_le k v bound))))

pub be_at-put_be :
    (k v i : ℕ) (front back : List ℕ)
    → length front ≡ i
    → v < 256 ^ k
    → be_at k i (front ++ (put_be k v ++ back)) ≡ v
unfolding be_at
be_at-put_be k v i front back h bound =
    subst (λ j. be_from 0 (take k (drop j (front ++ (put_be k v ++ back)))) ≡ v) h
      (rw (drop_prefix front (put_be k v ++ back)) (
        subst (λ j. be_from 0 (take j (put_be k v ++ back)) ≡ v) (length-put_be k v)
          (rw (take_prefix (put_be k v) back) (be_from-put_be k v bound))))

stored_size : List ℕ → ℕ
stored_size body = block_size body % 2 ^ 32

zeros : List ℕ → List ℕ
zeros body = replicate (padding (length body)) 0

block_by_end :
    (kind : ℕ) (body : List ℕ)
    → block kind body
      ≡ (put_le 4 kind ++ (put_le 4 (stored_size body) ++ (body ++ zeros body)))
        ++ (put_le 4 (stored_size body) ++ [])
unfolding block stored_size zeros
block_by_end kind body = simp (append_assoc, append-nil)

length-front :
    (kind : ℕ) (body : List ℕ)
    → length (put_le 4 kind ++ (put_le 4 (stored_size body) ++ (body ++ zeros body)))
      ≡ length (block kind body) - 4
length-front kind body =
    let whole = ap length (block_by_end kind body) in
    let parts =
      length-append (put_le 4 kind ++ (put_le 4 (stored_size body) ++ (body ++ zeros body)))
        (put_le 4 (stored_size body) ++ []) in
    let last = length-append (put_le 4 (stored_size body)) [] in
    omega (arith, whole, parts, last, length-put_le 4 (stored_size body))

block_by_body :
    (kind : ℕ) (body : List ℕ)
    → block kind body
      ≡ (put_le 4 kind ++ put_le 4 (stored_size body))
        ++ (body ++ (zeros body ++ put_le 4 (stored_size body)))
unfolding block stored_size zeros
block_by_body kind body = simp append_assoc

block_by_size :
    (kind : ℕ) (body : List ℕ)
    → block kind body
      ≡ put_le 4 kind
        ++ (put_le 4 (stored_size body) ++ (body ++ (zeros body ++ put_le 4 (stored_size body))))
unfolding block stored_size zeros
block_by_size kind body = refl

-- A block whose size fits a uint32 has a length that four divides, says that length behind its type
-- and again in its last four bytes, and holds the whole body from its ninth byte on.
pub block_lem :
    (kind : ℕ) (body : List ℕ)
    → block_size body < 2 ^ 32
    → (length (block kind body) % 4 ≡ 0)
      × (le_at 4 4 (block kind body) ≡ length (block kind body))
      × (le_at 4 (length (block kind body) - 4) (block kind body) ≡ length (block kind body))
      × (take (length body) (drop 8 (block kind body)) ≡ body)
unfolding stored_size
block_lem kind body small =
    let size = length-block kind body in
    let stored : stored_size body ≡ length (block kind body) = omega (arith, size) in
    (
      omega (arith, size),
      ap (le_at 4 4) (block_by_size kind body)
          ∙ le_at-put_le 4 (stored_size body) 4 (put_le 4 kind)
              (body ++ (zeros body ++ put_le 4 (stored_size body))) (length-put_le 4 kind)
              (omega arith)
          ∙ stored,
      ap (le_at 4 (length (block kind body) - 4)) (block_by_end kind body)
          ∙ le_at-put_le 4 (stored_size body) (length (block kind body) - 4)
              (put_le 4 kind ++ (put_le 4 (stored_size body) ++ (body ++ zeros body))) []
              (length-front kind body) (omega arith)
          ∙ stored,
      ap (λ b. take (length body) (drop 8 b)) (block_by_body kind body)
          ∙ ap (take (length body)) (
              behind (put_le 4 kind ++ put_le 4 (stored_size body))
                (body ++ (zeros body ++ put_le 4 (stored_size body))) eight)
          ∙ take_prefix body (zeros body ++ put_le 4 (stored_size body)),
    )
  where
    behind : (front back : List ℕ) → length front ≡ 8 → drop 8 (front ++ back) ≡ back
    behind front back h = subst (λ n. drop n (front ++ back) ≡ back) h (drop_prefix front back)

    eight : length (put_le 4 kind ++ put_le 4 (stored_size body)) ≡ 8
    eight = omega (
      arith,
      length-append (put_le 4 kind) (put_le 4 (stored_size body)),
      length-put_le 4 kind,
      length-put_le 4 (stored_size body),
    )

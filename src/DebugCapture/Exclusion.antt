-- ===== src/DebugCapture/Exclusion.antt =====
-- internal/debugcapture/capture.go: peers whose packets a capture leaves out (Exclude, isExcluded).
-- A peer `address:port` is the number of its address times 65536 plus its port. A counter that would
-- fall to 0 or below is deleted with its entry.
use quic_lab.Common.{
  ℕ, ◌+◌, ◌-◌, ◌*◌, ◌/◌, ◌%◌, ◌≡◌, sym, ap, inl, inr, Bool, true, not, ◌||◌, Option, none, some,
  List, [], ◌∷◌, ◌++◌, arith, ltb, leb, ◌==◌, if◌then◌else◌, ==_iff, Bool-cases, length, take, drop,
}
use quic_lab.Common.Bytes.{be_at}
use quic_lab.Common.Maps.{lookup, insert, delete, insert_hit, insert_miss, delete_hit, delete_miss}

abbrev pub counter : Option ℕ → ℕ
counter none = 0
counter (some n) = n

unfoldable pub count_of : ℕ → List (ℕ × ℕ) → ℕ
unfolding lookup
count_of peer excluded = counter (lookup peer excluded)

unfoldable pub exclude : ℕ → List (ℕ × ℕ) → List (ℕ × ℕ)
unfolding count_of insert
exclude peer excluded = insert peer (count_of peer excluded + 1) excluded

-- What the function that Exclude returns does three seconds later.
unfoldable pub include_again : ℕ → List (ℕ × ℕ) → List (ℕ × ℕ)
unfolding count_of insert delete
include_again peer excluded =
    if leb (count_of peer excluded) 1
    then delete peer excluded
    else insert peer (count_of peer excluded - 1) excluded

-- The length of the link header, for the link types that are read.
abbrev pub link_header : ℕ → Option ℕ
link_header link =
    if link == 1
    then some 14
    else if link == 113
    then some 16
    else if link == 276
    then some 20
    else if link == 101
    then some 0
    else none

-- The peer of an IPv4 packet at the address `at` and the port `port`.
abbrev pub peer_at : ℕ → ℕ → List ℕ → ℕ
peer_at address port p = be_at 4 address p * 65536 + be_at 2 port p

abbrev pub is_excluded_ip : List ℕ → List (ℕ × ℕ) → Bool
is_excluded_ip p excluded =
    let header = be_at 1 0 p % 16 * 4 in
    if not (be_at 1 0 p / 16 == 4)
    then true
    else if ltb header 20 || ltb (length p) (header + 4)
    then true
    else ltb 0 (count_of (peer_at 12 header p) excluded)
      || ltb 0 (count_of (peer_at 16 (header + 2) p) excluded)

abbrev pub is_excluded_at : Option ℕ → List ℕ → List (ℕ × ℕ) → Bool
is_excluded_at none p excluded = true
is_excluded_at (some offset) p excluded =
    if ltb (length p) (offset + 20) then true else is_excluded_ip (drop offset p) excluded

-- isExcluded on a packet block.
unfoldable pub is_excluded : List ℕ → ℕ → List (ℕ × ℕ) → Bool
unfolding be_at count_of
is_excluded b link excluded =
    is_excluded_at (link_header link) (take (length b - 4 - 28) (drop 28 b)) excluded

-- How often a peer stands in a list.
abbrev pub occurrences : ℕ → List ℕ → ℕ
occurrences peer [] = 0
occurrences peer (p ∷ ps) = (if p == peer then 1 else 0) + occurrences peer ps

-- `live` lists the exclusions that were made and not yet ended, in any order.
pub data ExcludeStep (excluded : List (ℕ × ℕ)) (live : List ℕ)
    : List (ℕ × ℕ) → List ℕ → Type 0 where
  excludes : (peer : ℕ) → ExcludeStep excluded live (exclude peer excluded) (peer ∷ live)
  ends :
      (peer : ℕ) (before after : List ℕ)
      → live ≡ before ++ (peer ∷ after)
      → ExcludeStep excluded live (include_again peer excluded) (before ++ after)

pub data ExcludeReach (excluded : List (ℕ × ℕ)) (live : List ℕ)
    : List (ℕ × ℕ) → List ℕ → Type 0 where
  nothing_yet : ExcludeReach excluded live excluded live
  and_next :
      {e : List (ℕ × ℕ)} {l : List ℕ} {e' : List (ℕ × ℕ)} {l' : List ℕ}
      → ExcludeReach excluded live e l
      → ExcludeStep e l e' l'
      → ExcludeReach excluded live e' l'

abbrev pub IsCounted : List (ℕ × ℕ) → List ℕ → Type 0
IsCounted excluded live = (peer : ℕ) → count_of peer excluded ≡ occurrences peer live

exclude-count_of :
    (peer other : ℕ) (excluded : List (ℕ × ℕ))
    → count_of other (exclude peer excluded)
      ≡ (if peer == other then 1 else 0) + count_of other excluded
unfolding exclude count_of
exclude-count_of peer other excluded = elim (Bool-cases (peer == other)) [
  | inl e ↦
      let here : counter (lookup other excluded) ≡ counter (lookup peer excluded) =
        ap (λ x. counter (lookup x excluded)) (sym ((==_iff peer other).0 e)) in
      rw (insert_hit peer other (counter (lookup peer excluded) + 1) excluded e, e)
        (omega (arith, here))
  | inr e ↦
      rw (insert_miss peer other (counter (lookup peer excluded) + 1) excluded e, e) (omega arith)
]

include_again-count_of :
    (peer other : ℕ) (excluded : List (ℕ × ℕ))
    → count_of other (include_again peer excluded)
      ≡ count_of other excluded - (if peer == other then 1 else 0)
unfolding include_again count_of
include_again-count_of peer other excluded =
    elim (Bool-cases (leb (counter (lookup peer excluded)) 1)) [
      | inl few ↦ elim (Bool-cases (peer == other)) [
        | inl e ↦
            let here : counter (lookup other excluded) ≡ counter (lookup peer excluded) =
              ap (λ x. counter (lookup x excluded)) (sym ((==_iff peer other).0 e)) in
            rw (few, delete_hit peer other excluded e, e) (ground (arith, here))
        | inr e ↦ rw (few, delete_miss peer other excluded e, e) (omega arith)
      ]
      | inr many ↦ elim (Bool-cases (peer == other)) [
        | inl e ↦
            let here : counter (lookup other excluded) ≡ counter (lookup peer excluded) =
              ap (λ x. counter (lookup x excluded)) (sym ((==_iff peer other).0 e)) in
            rw (many, insert_hit peer other (counter (lookup peer excluded) - 1) excluded e, e)
              (omega (arith, here))
        | inr e ↦
            rw (many, insert_miss peer other (counter (lookup peer excluded) - 1) excluded e, e)
              (omega arith)
      ]
    ]

occurrences-append :
    (peer : ℕ) (xs ys : List ℕ)
    → occurrences peer (xs ++ ys) ≡ occurrences peer xs + occurrences peer ys
occurrences-append peer [] ys = omega arith
occurrences-append peer (x ∷ xs) ys = omega (arith, occurrences-append peer xs ys)

ExcludeStep-IsCounted :
    {e : List (ℕ × ℕ)} {l : List ℕ} {e' : List (ℕ × ℕ)} {l' : List ℕ}
    → ExcludeStep e l e' l'
    → IsCounted e l
    → IsCounted e' l'
ExcludeStep-IsCounted {e} (excludes peer) good other =
    omega (arith, exclude-count_of peer other e, good other)
ExcludeStep-IsCounted {e} (ends peer before after split) good other =
    let whole = ap (occurrences other) split in
    omega (
      arith,
      include_again-count_of peer other e,
      good other,
      whole,
      occurrences-append other before (peer ∷ after),
      occurrences-append other before after,
    )

-- However exclusions begin and end, also overlapping ones of the same peer, the counter of each peer
-- is the number of its exclusions that have not ended, if it was so before.
pub ExcludeReach-IsCounted :
    {e : List (ℕ × ℕ)} {l : List ℕ} {e' : List (ℕ × ℕ)} {l' : List ℕ}
    → IsCounted e l
    → ExcludeReach e l e' l'
    → IsCounted e' l'
ExcludeReach-IsCounted good nothing_yet = good
ExcludeReach-IsCounted good (and_next r step) =
    ExcludeStep-IsCounted step (ExcludeReach-IsCounted good r)

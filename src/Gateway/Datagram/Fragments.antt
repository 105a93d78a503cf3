-- ===== src/Gateway/Datagram/Fragments.antt =====
-- The datagrams that DatagramFlow.Write makes of a packet (internal/gateway/datagram.go), and their
-- fields as `receive` and `accept` read them.
use quic_lab.Common.{
  ℕ, zero, suc, ◌+◌, ◌-◌, ◌*◌, ◌%◌, ◌^◌, ◌≤◌, ◌<◌, ◌≡◌, refl, sym, ap, ◌∙◌, false, some, List, [],
  ◌∷◌, ◌++◌, arith, length, get_elem?, take, drop, take-append-drop, length-take, length-drop,
  take_all, drop_all,
}
use quic_lab.Common.Bytes.{be_at, be_from-put_be}
use quic_lab.Gateway.Datagram.{malformed, fragment, piece, piece_count}
use Prim.Native.Nat.{min}
use Prim.Native.Nat.add
use native.Mathlib.Decide.{dec_le}
use native.Mathlib.Nat.{add-zero}

-- Each field is read back from its place, and the payload is what follows the 16 bytes.
pub fragment_fields :
    (id seq index total : ℕ) (payload : List ℕ)
    → id < 2 ^ 64
    → seq < 2 ^ 32
    → index < 65536
    → total < 65536
    → (be_at 8 0 (fragment id seq index total payload) ≡ id)
      × (be_at 4 8 (fragment id seq index total payload) ≡ seq)
      × (be_at 2 12 (fragment id seq index total payload) ≡ index)
      × (be_at 2 14 (fragment id seq index total payload) ≡ total)
      × (drop 16 (fragment id seq index total payload) ≡ payload)
unfolding fragment be_at
fragment_fields id seq index total payload hid hseq hindex htotal = (
  be_from-put_be 8 id hid,
  be_from-put_be 4 seq hseq,
  be_from-put_be 2 (index % 65536) (omega arith) ∙ omega arith,
  be_from-put_be 2 (total % 65536) (omega arith) ∙ omega arith,
  refl,
)

pub length-fragment :
    (id seq index total : ℕ) (payload : List ℕ)
    → length (fragment id seq index total payload) ≡ 16 + length payload
unfolding fragment
length-fragment id seq index total payload = omega arith

-- The pieces from place `i` on, `left` of them.
abbrev pub pieces_from : ℕ → ℕ → List ℕ → List (List ℕ)
pieces_from zero i b = []
pieces_from (suc left) i b = piece i b ∷ pieces_from left (i + 1) b

pub length-piece :
    (i : ℕ) (b : List ℕ) → length (piece i b) ≡ min (length b) (i * 1000 + 1000) - i * 1000
length-piece i b = omega (
  arith,
  length-take (min (length b) (i * 1000 + 1000) - i * 1000) (drop (i * 1000) b),
  length-drop (i * 1000) b,
)

drop_nil {ℓ} : {A : Type ℓ} (n : ℕ) → drop {A = A} n [] ≡ []
drop_nil zero = refl
drop_nil (suc n) = refl

drop-drop {ℓ} : {A : Type ℓ} (m n : ℕ) (xs : List A) → drop m (drop n xs) ≡ drop (n + m) xs
drop-drop m zero xs = rw add.zero
drop-drop m (suc n) [] = drop_nil m ∙ sym (drop_nil (suc n + m))
drop-drop m (suc n) (x ∷ xs) = rw (add.suc n m) (drop-drop m n xs)

take-min {ℓ} : {A : Type ℓ} (n : ℕ) (xs : List A) → take (min n (length xs)) xs ≡ take n xs
take-min n xs = elim (dec_le n (length xs)) [
  | yes h ↦ let e : min n (length xs) ≡ n = omega arith in rw e
  | no h ↦
      let e : min n (length xs) ≡ length xs = omega arith in
      rw e (take_all (length xs) xs (omega arith) ∙ sym (take_all n xs (omega arith)))
]

pub piece_lem : (i : ℕ) (b : List ℕ) → piece i b ≡ take 1000 (drop (i * 1000) b)
piece_lem i b =
    let e : min (length b) (i * 1000 + 1000) - i * 1000 ≡ min 1000 (length (drop (i * 1000) b)) =
      omega (arith, length-drop (i * 1000) b) in
    rw e (take-min 1000 (drop (i * 1000) b))

abbrev pub flat : List (List ℕ) → List ℕ
flat [] = []
flat (p ∷ ps) = p ++ flat ps

-- From place `i` on the pieces make up the packet from its byte 1000 * i on.
flat-pieces_from :
    (left i : ℕ) (b : List ℕ)
    → length b ≤ (i + left) * 1000
    → flat (pieces_from left i b) ≡ drop (i * 1000) b
flat-pieces_from zero i b h = sym (drop_all (i * 1000) b (omega arith))
flat-pieces_from (suc left) i b h =
    let next : drop ((i + 1) * 1000) b ≡ drop 1000 (drop (i * 1000) b) =
      ap (λ (k : ℕ). drop k b) (same i) ∙ sym (drop-drop 1000 (i * 1000) b) in
    rw (piece_lem i b, flat-pieces_from left (i + 1) b (omega arith), next)
      (take-append-drop 1000 (drop (i * 1000) b))
  where
    same : (i : ℕ) → (i + 1) * 1000 ≡ i * 1000 + 1000
    same i = omega arith

-- All pieces together are the packet.
pub flat-pieces : (b : List ℕ) → flat (pieces_from (piece_count b) 0 b) ≡ b
flat-pieces b = flat-pieces_from (piece_count b) 0 b (omega arith)

pub length-pieces_from : (left i : ℕ) (b : List ℕ) → length (pieces_from left i b) ≡ left
length-pieces_from zero i b = refl
length-pieces_from (suc left) i b = ap suc (length-pieces_from left (i + 1) b)

pub get_elem?-pieces_from :
    (left i j : ℕ) (b : List ℕ)
    → j < left
    → get_elem? (pieces_from left i b) j ≡ some (piece (i + j) b)
get_elem?-pieces_from zero i j b h = absurd (omega arith)
get_elem?-pieces_from (suc left) i zero b h = rw (add-zero i)
get_elem?-pieces_from (suc left) i (suc j) b h =
    let e : i + 1 + j ≡ i + suc j = omega arith in
    get_elem?-pieces_from left (i + 1) j b (omega arith) ∙ ap (λ (k : ℕ). some (piece k b)) e

-- The pieces of a packet that UDP can carry pass the receiver's test, and there are at most 66.
pub piece_count_bounds :
    (b : List ℕ) → length b ≤ 65507 → (1 ≤ piece_count b) × (piece_count b ≤ 66)
piece_count_bounds b h = omega arith

pub piece_wellformed :
    (b : List ℕ) (i : ℕ)
    → length b ≤ 65507
    → i < piece_count b
    → malformed i (piece_count b) (piece i b) ≡ false
unfolding malformed
piece_wellformed b i h hi = ground (arith, length-piece i b)

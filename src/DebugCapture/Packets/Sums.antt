-- ===== src/DebugCapture/Packets/Sums.antt =====
-- internal/debugcapture/user.go: the sum of checksum, its carries and what a receiver finds.
use quic_lab.Common.{
  ℕ, zero, suc, ◌+◌, ◌-◌, ◌*◌, ◌%◌, ◌^◌, ◌≤◌, ◌<◌, ◌≡◌, refl, ◌∙◌, List, [], ◌∷◌, ◌++◌, arith, ◌==◌,
  if◌then◌else◌, length, All,
}
use quic_lab.Common.Bytes.{IsByte, put_be}
use quic_lab.DebugCapture.Packets.{sum_words, fold_carries, fold_rounds, checksum, udp_sum}

-- The sum of the 16-bit words, without any wrap-around.
unfoldable pub words : List ℕ → ℕ
words [] = 0
words (x ∷ []) = x * 256
words (x ∷ y ∷ rest) = x * 256 + y + words rest

pub words_bound : (p : List ℕ) → All IsByte p → 2 * words p ≤ 65535 * (length p + 1)
unfolding words
words_bound [] h = omega arith
words_bound (x ∷ []) h = omega (arith, h.0)
words_bound (x ∷ y ∷ rest) h = omega (arith, h.0, h.1.0, words_bound rest h.1.1)

pub words-append : (k : ℕ) (a b : List ℕ) → length a ≡ 2 * k → words (a ++ b) ≡ words a + words b
unfolding words
words-append zero [] b h = omega arith
words-append zero (x ∷ a) b h = absurd (omega arith)
words-append (suc k) [] b h = absurd (omega arith)
words-append (suc k) (x ∷ []) b h = absurd (omega arith)
words-append (suc k) (x ∷ y ∷ a) b h = omega (arith, words-append k a b (omega arith))

sum_words_from : (p : List ℕ) (s : ℕ) → s + words p < 2 ^ 32 → sum_words s p ≡ s + words p
unfolding words sum_words
sum_words_from [] s h = omega arith
sum_words_from (x ∷ []) s h = omega arith
sum_words_from (x ∷ y ∷ rest) s h =
    let small : (s + (x * 256 + y)) % 2 ^ 32 ≡ s + (x * 256 + y) = omega arith in
    rw small (omega (arith, sum_words_from rest (s + (x * 256 + y)) (omega arith)))

-- The loop of checksum that adds the carries ends within two rounds for every uint32: the sum fits
-- 16 bits then, and more rounds change nothing.
pub fold_carries-stops :
    (s more : ℕ)
    → s < 2 ^ 32
    → (fold_carries fold_rounds s < 65536)
      × (fold_carries (fold_rounds + more) s ≡ fold_carries fold_rounds s)
unfolding fold_carries
fold_carries-stops s zero h = ground arith
fold_carries-stops s (suc more) h = ground arith

-- The remainder by 65535, with 65535 for the remainder 0 of a positive sum.
abbrev pub residue : ℕ → ℕ
residue s = if s == 0 then 0 else (s - 1) % 65535 + 1

fold_carries-residue : (s : ℕ) → s < 2 ^ 32 → fold_carries fold_rounds s ≡ residue s
unfolding fold_carries
fold_carries-residue s h = ground arith

pub checksum-residue : (p : List ℕ) → words p < 2 ^ 32 → checksum p ≡ 65535 - residue (words p)
unfolding checksum
checksum-residue p h =
    let total : sum_words 0 p ≡ words p = sum_words_from p 0 (omega (arith, h)) ∙ omega arith in
    rw (total, fold_carries-residue (words p) h) (ground arith)

pub words-put_be : (v : ℕ) (b : List ℕ) → v < 65536 → words (put_be 2 v ++ b) ≡ v + words b
unfolding put_be words
words-put_be v b h = omega arith

-- A receiver adds up everything, the checksum included, and finds zero.
module _ (k : ℕ) (a b : List ℕ) (even : length a ≡ 2 * k)
    (small : words a + words b < 3_000_000_000) where
  filled : (v : ℕ) → v < 65536 → words (a ++ (put_be 2 v ++ b)) ≡ words a + words b + v
  filled v h = rw (words-append k a (put_be 2 v ++ b) even, words-put_be v b h) (omega arith)

  verifies_with :
      (v : ℕ)
      → v < 65536
      → residue (words a + words b + v) ≡ 65535
      → checksum (a ++ (put_be 2 v ++ b)) ≡ 0
  verifies_with v h e =
      rw (checksum-residue (a ++ (put_be 2 v ++ b)) (omega (arith, filled v h)), filled v h, e) refl

  computed : checksum (a ++ (put_be 2 0 ++ b)) ≡ 65535 - residue (words a + words b)
  computed =
      rw
        (
          checksum-residue (a ++ (put_be 2 0 ++ b)) (omega (arith, filled 0 (omega arith))),
          filled 0 (omega arith),
        )
        (ground arith)

  pub checksum-verifies : checksum (a ++ (put_be 2 (checksum (a ++ (put_be 2 0 ++ b))) ++ b)) ≡ 0
  checksum-verifies =
      rw computed
        (verifies_with (65535 - residue (words a + words b)) (ground arith) (ground arith))

  pub udp_sum-verifies :
      checksum (a ++ (put_be 2 (udp_sum (checksum (a ++ (put_be 2 0 ++ b)))) ++ b)) ≡ 0
  udp_sum-verifies =
      rw computed (
        verifies_with (udp_sum (65535 - residue (words a + words b))) (ground arith) (ground arith))

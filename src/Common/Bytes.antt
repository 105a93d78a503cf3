-- ===== src/Common/Bytes.antt =====
-- encoding/binary: fixed-width integers as byte strings, most and least significant byte first.
use Prim.Native.Nat.{ℕ, zero, suc, ◌+◌, ◌*◌, ◌/◌, ◌%◌, ◌^◌, ◌<◌}
use mathlib.Core.Path.{◌≡◌, refl, ◌∙◌, ap}
use mathlib.Core.List.{List, [], ◌∷◌, ◌++◌}
use native.Mathlib.Omega.{arith}
use native.Mathlib.Nat.{pow-suc}
use mathlib.Core.Bool.{Bool, true, false, ◌&&◌, ◌||◌}
use mathlib.Core.Logic.{inl, inr}
use quic_lab.Common.Tests.{◌==◌, ==_iff, ==_refl, Bool-cases}
use quic_lab.Common.Lists.{length, take, drop, All, length-append, All-append}

abbrev pub IsByte : ℕ → Type 0
IsByte b = b < 256

-- `BigEndian.PutUintN` with N = 8 * k: `k` bytes of `v`, the highest first.
unfoldable pub put_be : ℕ → ℕ → List ℕ
put_be zero v = []
put_be (suc k) v = put_be k (v / 256) ++ (v % 256 ∷ [])

unfoldable pub be_from : ℕ → List ℕ → ℕ
be_from acc [] = acc
be_from acc (x ∷ xs) = be_from (acc * 256 + x) xs

unfoldable pub put_le : ℕ → ℕ → List ℕ
put_le zero v = []
put_le (suc k) v = v % 256 ∷ put_le k (v / 256)

unfoldable pub get_le : List ℕ → ℕ
get_le [] = 0
get_le (x ∷ xs) = x + 256 * get_le xs

-- `BigEndian.UintN(b[at:])`.
unfoldable pub be_at : ℕ → ℕ → List ℕ → ℕ
unfolding be_from
be_at k at b = be_from 0 (take k (drop at b))

unfoldable pub le_at : ℕ → ℕ → List ℕ → ℕ
unfolding get_le
le_at k at b = get_le (take k (drop at b))

pub be_from-snoc :
    (acc : ℕ) (xs : List ℕ) (y : ℕ) → be_from acc (xs ++ (y ∷ [])) ≡ be_from acc xs * 256 + y
unfolding be_from
be_from-snoc acc [] y = refl
be_from-snoc acc (x ∷ xs) y = be_from-snoc (acc * 256 + x) xs y

pub be_from-put_be : (k v : ℕ) → v < 256 ^ k → be_from 0 (put_be k v) ≡ v
unfolding put_be
be_from-put_be zero v h = unfold be_from in (omega arith)
be_from-put_be (suc k) v h =
    let small : v < 256 ^ k * 256 = rw pow-suc at h in
    be_from-snoc 0 (put_be k (v / 256)) (v % 256)
    ∙ omega (arith, be_from-put_be k (v / 256) (omega arith))

pub get_le-put_le : (k v : ℕ) → v < 256 ^ k → get_le (put_le k v) ≡ v
unfolding put_le get_le
get_le-put_le zero v h = omega arith
get_le-put_le (suc k) v h =
    let small : v < 256 ^ k * 256 = rw pow-suc at h in
    omega (arith, get_le-put_le k (v / 256) (omega arith))

pub length-put_be : (k v : ℕ) → length (put_be k v) ≡ k
unfolding put_be
length-put_be zero v = refl
length-put_be (suc k) v =
    omega (arith, length-append (put_be k (v / 256)) (v % 256 ∷ []), length-put_be k (v / 256))

pub length-put_le : (k v : ℕ) → length (put_le k v) ≡ k
unfolding put_le
length-put_le zero v = refl
length-put_le (suc k) v = ap suc (length-put_le k (v / 256))

pub put_be-IsByte : (k v : ℕ) → All IsByte (put_be k v)
unfolding put_be
put_be-IsByte zero v = tt
put_be-IsByte (suc k) v =
    All-append IsByte (put_be k (v / 256)) (v % 256 ∷ []) (put_be-IsByte k (v / 256))
      (omega arith, tt)

-- Go's `==` on strings.
unfoldable pub same : List ℕ → List ℕ → Bool
same [] [] = true
same [] (y ∷ ys) = false
same (x ∷ xs) [] = false
same (x ∷ xs) (y ∷ ys) = x == y && same xs ys

pub same-eq : (a b : List ℕ) → same a b ≡ true → a ≡ b
unfolding same
same-eq [] [] h = refl
same-eq [] (y ∷ ys) h = cc
same-eq (x ∷ xs) [] h = cc
same-eq (x ∷ xs) (y ∷ ys) h = elim (Bool-cases (x == y)) [
  | inl e ↦ cc ((==_iff x y).0 e, same-eq xs ys (rw e at h))
  | inr e ↦ absurd (let bad : false ≡ true = rw e at h in cc)
]

pub same_refl : (a : List ℕ) → same a a ≡ true
unfolding same
same_refl [] = refl
same_refl (x ∷ xs) = rw (==_refl x, same_refl xs)

unfoldable pub member : List ℕ → List (List ℕ) → Bool
member a [] = false
member a (b ∷ bs) = same b a || member a bs

-- ===== src/Common/Lists.antt =====
-- Lists measured, cut and indexed by native numbers, under the library's names.
use Prim.Native.Nat.{ℕ, zero, suc, ◌+◌, ◌-◌, ◌≤◌, ◌<◌, min}
use mathlib.Core.Path.{◌≡◌, refl, ap}
use mathlib.Core.List.{List, [], ◌∷◌, ◌++◌}
use mathlib.Core.Logic.{◌≢◌}
use mathlib.Core.Option.{Option, none, some}
use native.Mathlib.Omega.{arith}

module _ {ℓ} {A : Type ℓ} where
  abbrev pub length : List A → ℕ
  length [] = 0
  length (x ∷ xs) = suc (length xs)

  abbrev pub get_elem? : List A → ℕ → Option A
  get_elem? [] i = none
  get_elem? (x ∷ xs) zero = some x
  get_elem? (x ∷ xs) (suc i) = get_elem? xs i

  abbrev pub set : List A → ℕ → A → List A
  set [] i v = []
  set (x ∷ xs) zero v = v ∷ xs
  set (x ∷ xs) (suc i) v = x ∷ set xs i v

  abbrev pub take : ℕ → List A → List A
  take zero xs = []
  take (suc n) [] = []
  take (suc n) (x ∷ xs) = x ∷ take n xs

  abbrev pub drop : ℕ → List A → List A
  drop zero xs = xs
  drop (suc n) [] = []
  drop (suc n) (x ∷ xs) = drop n xs

  abbrev pub replicate : ℕ → A → List A
  replicate zero a = []
  replicate (suc n) a = a ∷ replicate n a

  abbrev pub All {κ} : (A → Type κ) → List A → Type κ
  All Holds [] = Unit {κ}
  All Holds (first ∷ others) = Holds first × All Holds others

module _ {ℓ} {A : Type ℓ} where
  pub length-append : (xs ys : List A) → length (xs ++ ys) ≡ length xs + length ys
  length-append [] ys = omega arith
  length-append (x ∷ xs) ys = omega (arith, length-append xs ys)

  pub take-append-drop : (n : ℕ) (xs : List A) → take n xs ++ drop n xs ≡ xs
  take-append-drop zero xs = refl
  take-append-drop (suc n) [] = refl
  take-append-drop (suc n) (x ∷ xs) = rw (take-append-drop n xs)

  pub length-take : (n : ℕ) (xs : List A) → length (take n xs) ≡ min n (length xs)
  length-take zero xs = omega arith
  length-take (suc n) [] = omega arith
  length-take (suc n) (x ∷ xs) = omega (arith, length-take n xs)

  pub length-drop : (n : ℕ) (xs : List A) → length (drop n xs) ≡ length xs - n
  length-drop zero xs = omega arith
  length-drop (suc n) [] = omega arith
  length-drop (suc n) (x ∷ xs) = omega (arith, length-drop n xs)

  pub take_prefix : (xs ys : List A) → take (length xs) (xs ++ ys) ≡ xs
  take_prefix [] ys = refl
  take_prefix (x ∷ xs) ys = ap (◌∷◌ x) (take_prefix xs ys)

  pub drop_prefix : (xs ys : List A) → drop (length xs) (xs ++ ys) ≡ ys
  drop_prefix [] ys = refl
  drop_prefix (x ∷ xs) ys = drop_prefix xs ys

  pub take_all : (n : ℕ) (xs : List A) → length xs ≤ n → take n xs ≡ xs
  take_all zero [] h = refl
  take_all zero (x ∷ xs) h = absurd (omega arith)
  take_all (suc n) [] h = refl
  take_all (suc n) (x ∷ xs) h = ap (◌∷◌ x) (take_all n xs (omega arith))

  pub drop_all : (n : ℕ) (xs : List A) → length xs ≤ n → drop n xs ≡ []
  drop_all zero [] h = refl
  drop_all zero (x ∷ xs) h = absurd (omega arith)
  drop_all (suc n) [] h = refl
  drop_all (suc n) (x ∷ xs) h = drop_all n xs (omega arith)

  pub length-set : (xs : List A) (i : ℕ) (v : A) → length (set xs i v) ≡ length xs
  length-set [] i v = refl
  length-set (x ∷ xs) zero v = refl
  length-set (x ∷ xs) (suc i) v = ap suc (length-set xs i v)

  pub length-replicate : (n : ℕ) (a : A) → length (replicate n a) ≡ n
  length-replicate zero a = refl
  length-replicate (suc n) a = ap suc (length-replicate n a)

  pub All-append {κ} :
      (Holds : A → Type κ) (front back : List A)
      → All Holds front
      → All Holds back
      → All Holds (front ++ back)
  All-append Holds [] back in_front in_back = in_back
  All-append Holds (first ∷ front) back in_front in_back =
      (in_front.0, All-append Holds front back in_front.1 in_back)

  pub append_split :
      (a b c d : List A)
      → a ++ b ≡ c ++ d
      → length c ≤ length a
      → (e : List A) × (a ≡ c ++ e) × (d ≡ e ++ b)
  append_split a b [] d h le = (a, refl, cc)
  append_split [] b (y ∷ c) d h le = absurd (omega arith)
  append_split (x ∷ a) b (y ∷ c) d h le =
      let (e, p, q) = append_split a b c d (cc) (omega arith) in (e, cc, q)

  pub append_cancel : (a b c : List A) → a ++ b ≡ a ++ c → b ≡ c
  append_cancel [] b c h = h
  append_cancel (x ∷ a) b c h = append_cancel a b c (cc)

  pub get_elem?-set_ne :
      (xs : List A) (i j : ℕ) (v : A) → i ≢ j → get_elem? (set xs i v) j ≡ get_elem? xs j
  get_elem?-set_ne [] i j v h = refl
  get_elem?-set_ne (x ∷ xs) zero zero v h = absurd (h refl)
  get_elem?-set_ne (x ∷ xs) zero (suc j) v h = refl
  get_elem?-set_ne (x ∷ xs) (suc i) zero v h = refl
  get_elem?-set_ne (x ∷ xs) (suc i) (suc j) v h = get_elem?-set_ne xs i j v (λ e. h (ap suc e))

  pub get_elem?-set_hit :
      (xs : List A) (i : ℕ) (old v : A)
      → get_elem? xs i ≡ some old
      → get_elem? (set xs i v) i ≡ some v
  get_elem?-set_hit [] i old v h = cc
  get_elem?-set_hit (x ∷ xs) zero old v h = refl
  get_elem?-set_hit (x ∷ xs) (suc i) old v h = get_elem?-set_hit xs i old v h

  pub get_elem?-replicate : (n i : ℕ) (v : A) → i < n → get_elem? (replicate n v) i ≡ some v
  get_elem?-replicate zero i v h = absurd (omega arith)
  get_elem?-replicate (suc n) zero v h = refl
  get_elem?-replicate (suc n) (suc i) v h = get_elem?-replicate n i v (omega arith)

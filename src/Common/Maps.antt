-- ===== src/Common/Maps.antt =====
-- Go maps with number keys, as association lists: a write replaces the entry or adds one at the end.
use quic_lab.Common.Tests.{◌==◌, if◌then◌else◌, ==_iff, Bool-cases, is_some}
use quic_lab.Common.Lists.{length}
use Prim.Native.Nat.{ℕ, suc, ◌≤◌, ◌<◌}
use mathlib.Core.Path.{◌≡◌, refl, subst, sym, ◌∙◌}
use mathlib.Core.Logic.{inl, inr, ◌⊎◌, ◌≢◌}
use mathlib.Core.Bool.{Bool, true, false}
use mathlib.Core.List.{List, [], ◌∷◌}
use mathlib.Core.Option.{Option, none, some}
use native.Mathlib.Omega.{arith}

module _ {ℓ} {V : Type ℓ} where
  unfoldable pub lookup : ℕ → List (ℕ × V) → Option V
  lookup key [] = none
  lookup key ((other, found) ∷ rest) =
      let later = lookup key rest in if other == key then some found else later

  unfoldable pub insert : ℕ → V → List (ℕ × V) → List (ℕ × V)
  insert key new [] = (key, new) ∷ []
  insert key new ((other, old) ∷ rest) =
      let later = insert key new rest in
      if other == key then (key, new) ∷ rest else (other, old) ∷ later

  unfoldable pub delete : ℕ → List (ℕ × V) → List (ℕ × V)
  delete k [] = []
  delete k ((j, w) ∷ m) = let rest = delete k m in if j == k then rest else (j, w) ∷ rest

  -- The entries whose value passes the test: the loop `for k, v := range m { delete … }`.
  unfoldable pub keep : (V → Bool) → List (ℕ × V) → List (ℕ × V)
  keep test [] = []
  keep test ((j, w) ∷ m) = let rest = keep test m in if test w then (j, w) ∷ rest else rest

  pub lookup-insert :
      (written read : ℕ) (new : V) (m : List (ℕ × V))
      → lookup read (insert written new m) ≡ (if written == read then some new else lookup read m)
  unfolding insert lookup
  lookup-insert written read new [] = ground arith
  lookup-insert written read new (entry ∷ m) = ground (lookup-insert written read new m, arith)

  pub lookup-delete :
      (k j : ℕ) (m : List (ℕ × V)) → lookup j (delete k m) ≡ (if k == j then none else lookup j m)
  unfolding lookup delete
  lookup-delete k j [] = ground arith
  lookup-delete k j ((i, w) ∷ m) = ground (arith, lookup-delete k j m)

  pub insert_hit :
      (k j : ℕ) (v : V) (m : List (ℕ × V)) → (k == j) ≡ true → lookup j (insert k v m) ≡ some v
  insert_hit k j v m e = lookup-insert k j v m ∙ (rw e refl)

  pub insert_miss :
      (k j : ℕ) (v : V) (m : List (ℕ × V)) → (k == j) ≡ false → lookup j (insert k v m) ≡ lookup j m
  insert_miss k j v m e = lookup-insert k j v m ∙ (rw e refl)

  pub delete_hit : (k j : ℕ) (m : List (ℕ × V)) → (k == j) ≡ true → lookup j (delete k m) ≡ none
  delete_hit k j m e = lookup-delete k j m ∙ (rw e refl)

  pub delete_miss :
      (k j : ℕ) (m : List (ℕ × V)) → (k == j) ≡ false → lookup j (delete k m) ≡ lookup j m
  delete_miss k j m e = lookup-delete k j m ∙ (rw e refl)

  -- What is found after a write: what was written, or an old entry.
  pub insert-cases :
      (k j : ℕ) (v w : V) (m : List (ℕ × V))
      → lookup j (insert k v m) ≡ some w
      → ((k ≡ j) × (v ≡ w)) ⊎ ((k ≢ j) × (lookup j m ≡ some w))
  insert-cases k j v w m h = elim (Bool-cases (k == j)) [
    | inl e ↦
        let found : some v ≡ some w = rw e at (sym (lookup-insert k j v m) ∙ h) in
        inl ((==_iff k j).0 e, cc found)
    | inr e ↦
        let found : lookup j m ≡ some w = rw e at (sym (lookup-insert k j v m) ∙ h) in
        inr (ground arith, found)
  ]

  pub delete-cases :
      (k j : ℕ) (w : V) (m : List (ℕ × V))
      → lookup j (delete k m) ≡ some w
      → (k ≢ j) × (lookup j m ≡ some w)
  delete-cases k j w m h = elim (Bool-cases (k == j)) [
    | inl e ↦ absurd (let bad : none ≡ some w = rw e at (sym (lookup-delete k j m) ∙ h) in cc)
    | inr e ↦
        let found : lookup j m ≡ some w = rw e at (sym (lookup-delete k j m) ∙ h) in
        (ground arith, found)
  ]

  pub lookup-keep :
      (test : V → Bool) (k : ℕ) (m : List (ℕ × V)) (v : V)
      → lookup k m ≡ some v
      → test v ≡ true
      → lookup k (keep test m) ≡ some v
  unfolding lookup keep
  lookup-keep test k [] v h t = cc
  lookup-keep test k ((i, w) ∷ m) v h t = ground (arith, lookup-keep test k m v)

  pub length-insert :
      (k : ℕ) (v : V) (m : List (ℕ × V))
      → length (insert k v m) ≡ (if is_some (lookup k m) then length m else suc (length m))
  unfolding lookup insert
  length-insert k v [] = refl
  length-insert k v ((j, w) ∷ m) = ground (arith, length-insert k v m)

  pub length-delete : (k : ℕ) (m : List (ℕ × V)) → length (delete k m) ≤ length m
  unfolding delete
  length-delete k [] = omega arith
  length-delete k ((j, w) ∷ m) = ground (arith, length-delete k m)

  pub length-keep : (test : V → Bool) (m : List (ℕ × V)) → length (keep test m) ≤ length m
  unfolding keep
  length-keep test [] = omega arith
  length-keep test ((j, w) ∷ m) = ground (arith, length-keep test m)

  -- A deleted key makes the map shorter.
  pub length-delete_lt :
      (k : ℕ) (m : List (ℕ × V)) → is_some (lookup k m) ≡ true → length (delete k m) < length m
  unfolding lookup delete
  length-delete_lt k [] h = cc
  length-delete_lt k ((j, w) ∷ m) h = ground (arith, length-delete_lt k m, length-delete k m)

  pub lookup-keep-none :
      (test : V → Bool) (k : ℕ) (m : List (ℕ × V))
      → lookup k m ≡ none
      → lookup k (keep test m) ≡ none
  unfolding lookup keep
  lookup-keep-none test k [] h = refl
  lookup-keep-none test k ((i, w) ∷ m) h = ground (arith, lookup-keep-none test k m)

  abbrev pub AllValues {κ} : (V → Type κ) → List (ℕ × V) → Type κ
  AllValues P [] = Unit {κ}
  AllValues P ((j, w) ∷ m) = P w × AllValues P m

  pub insert-AllValues {κ} :
      (P : V → Type κ) (k : ℕ) (v : V) (m : List (ℕ × V))
      → P v
      → AllValues P m
      → AllValues P (insert k v m)
  unfolding insert
  insert-AllValues P k v [] h a = (h, tt)
  insert-AllValues P k v ((j, w) ∷ m) h a = elim (Bool-cases (j == k)) [
    | inl e ↦ rw e (h, a.1)
    | inr e ↦ rw e (a.0, insert-AllValues P k v m h a.1)
  ]

  pub delete-AllValues {κ} :
      (P : V → Type κ) (k : ℕ) (m : List (ℕ × V)) → AllValues P m → AllValues P (delete k m)
  unfolding delete
  delete-AllValues P k [] a = tt
  delete-AllValues P k ((j, w) ∷ m) a = elim (Bool-cases (j == k)) [
    | inl e ↦ rw e (delete-AllValues P k m a.1)
    | inr e ↦ rw e (a.0, delete-AllValues P k m a.1)
  ]

  pub keep-AllValues {κ} :
      (P : V → Type κ) (test : V → Bool) (m : List (ℕ × V))
      → AllValues P m
      → AllValues P (keep test m)
  unfolding keep
  keep-AllValues P test [] a = tt
  keep-AllValues P test ((j, w) ∷ m) a = elim (Bool-cases (test w)) [
    | inl e ↦ rw e (a.0, keep-AllValues P test m a.1)
    | inr e ↦ rw e (keep-AllValues P test m a.1)
  ]

  pub lookup-AllValues {κ} :
      (P : V → Type κ) (k : ℕ) (m : List (ℕ × V)) (v : V)
      → lookup k m ≡ some v
      → AllValues P m
      → P v
  unfolding lookup
  lookup-AllValues P k [] v h a = cc
  lookup-AllValues P k ((j, w) ∷ m) v h a = elim (Bool-cases (j == k)) [
    | inl e ↦ let same : w ≡ v = ground arith in subst P same a.0
    | inr e ↦ lookup-AllValues P k m v (rw e at h) a.1
  ]

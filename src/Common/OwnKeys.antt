-- ===== src/Common/OwnKeys.antt =====
-- Maps in which no key stands twice, as in every Go map: what a write, a removal and a filter keep.
use quic_lab.Common.Tests.{◌==◌, if◌then◌else◌, ==_iff, Bool-cases}
use quic_lab.Common.Maps.{lookup, insert, delete, keep, insert_miss, delete_miss, lookup-keep-none}
use Prim.Native.Nat.{ℕ}
use mathlib.Core.Path.{◌≡◌, refl, subst, ◌∙◌}
use mathlib.Core.Logic.{inl, inr}
use mathlib.Core.Bool.{Bool}
use mathlib.Core.List.{List, [], ◌∷◌}
use mathlib.Core.Option.{Option, none, some}
use native.Mathlib.Omega.{arith}

module _ {ℓ} {V : Type ℓ} where
  abbrev pub OwnKeys : List (ℕ × V) → Type ℓ
  OwnKeys [] = Unit {ℓ}
  OwnKeys ((k, v) ∷ m) = (lookup k m ≡ none) × OwnKeys m

  pub insert-OwnKeys : (k : ℕ) (v : V) (m : List (ℕ × V)) → OwnKeys m → OwnKeys (insert k v m)
  unfolding insert lookup
  insert-OwnKeys k v [] h = (refl, tt)
  insert-OwnKeys k v ((j, w) ∷ m) (alone, own) = elim (Bool-cases (j == k)) [
    | inl e ↦ rw e (subst (λ i. lookup i m ≡ none) ((==_iff j k).0 e) alone, own)
    | inr e ↦ rw e (insert_miss k j v m (ground arith) ∙ alone, insert-OwnKeys k v m own)
  ]

  pub delete-OwnKeys : (k : ℕ) (m : List (ℕ × V)) → OwnKeys m → OwnKeys (delete k m)
  unfolding delete
  delete-OwnKeys k [] h = tt
  delete-OwnKeys k ((j, w) ∷ m) (alone, own) = elim (Bool-cases (j == k)) [
    | inl e ↦ rw e (delete-OwnKeys k m own)
    | inr e ↦ rw e (delete_miss k j m (ground arith) ∙ alone, delete-OwnKeys k m own)
  ]

  pub keep-OwnKeys : (test : V → Bool) (m : List (ℕ × V)) → OwnKeys m → OwnKeys (keep test m)
  unfolding keep
  keep-OwnKeys test [] h = tt
  keep-OwnKeys test ((j, w) ∷ m) (alone, own) = elim (Bool-cases (test w)) [
    | inl e ↦ rw e (lookup-keep-none test j m alone, keep-OwnKeys test m own)
    | inr e ↦ rw e (keep-OwnKeys test m own)
  ]

  -- What passes a test.
  abbrev pub passing : (V → Bool) → Option V → Option V
  passing test none = none
  passing test (some v) = if test v then some v else none

  pub lookup-keep-passing :
      (test : V → Bool) (k : ℕ) (m : List (ℕ × V))
      → OwnKeys m
      → lookup k (keep test m) ≡ passing test (lookup k m)
  unfolding lookup keep
  lookup-keep-passing test k [] h = refl
  lookup-keep-passing test k ((j, w) ∷ m) (alone, own) = elim (Bool-cases (test w)) [
    | inl e ↦ elim (Bool-cases (j == k)) [
      | inl f ↦ rw (e, f, e) refl
      | inr f ↦ rw (e, f) (lookup-keep-passing test k m own)
    ]
    | inr e ↦ elim (Bool-cases (j == k)) [
      | inl f ↦
          let gone : lookup k m ≡ none = subst (λ i. lookup i m ≡ none) ((==_iff j k).0 f) alone in
          rw (e, f, e) (lookup-keep-none test k m gone)
      | inr f ↦ rw (e, f) (lookup-keep-passing test k m own)
    ]
  ]

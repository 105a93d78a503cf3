-- ===== src/Admin/Uniqueness.antt =====
-- internal/admin/store.go and protocols.go: names and tunnel addresses are never shared, and the
-- number of accounts is bounded.
use mathlib.Core.Path.{subst}
use quic_lab.Common.{
  ℕ, ◌≤◌, ◌≡◌, refl, sym, ◌∙◌, ◌≢◌, inl, inr, true, false, none, some, List, [], ◌∷◌, ◌++◌, arith,
  ◌==◌, Bool-cases, length,
}
use quic_lab.Common.Bytes.{same, same_refl}
use quic_lab.Common.Maps.{lookup, insert, insert-cases}
use quic_lab.Net.{Prefix}
use quic_lab.AwgServer.{contains_word}
use quic_lab.Admin.{User, Store, address_of, addresses}
use quic_lab.Admin.Provisioning.{IsHost, HasPool}
use quic_lab.Admin.Accounts.{max_users, bad_name, name_taken}

-- The two have no tunnel address in common.
abbrev pub Apart : User → User → Type 0
Apart u v =
    (a : ℕ)
    → contains_word a (address_of u.peer) ≡ true
    → contains_word a (address_of v.peer) ≡ false

abbrev pub IsAccount : Prefix → User → Type 0
IsAccount p u =
    (bad_name u.name ≡ false) × ((a : ℕ) → contains_word a (address_of u.peer) ≡ true → IsHost p a)

abbrev pub Differ : User → User → Type 0
Differ u v = (u.name ≢ v.name) × Apart u v × Apart v u

abbrev pub IsAccounts : Prefix → List (ℕ × User) → Type 0
IsAccounts p m =
    (length m ≤ max_users)
    × ((id : ℕ) (u : User) → lookup id m ≡ some u → IsAccount p u)
    × ((i j : ℕ) (u v : User) → lookup i m ≡ some u → lookup j m ≡ some v → i ≢ j → Differ u v)

abbrev pub IsStore : Prefix → Store → Type 0
IsStore p s = HasPool p s.awg_config × IsAccounts p s.users

-- A map with no other entries than a good one is good.
pub part-IsAccounts :
    (p : Prefix) (small big : List (ℕ × User))
    → length small ≤ length big
    → ((id : ℕ) (u : User) → lookup id small ≡ some u → lookup id big ≡ some u)
    → IsAccounts p big
    → IsAccounts p small
part-IsAccounts p small big short inside (bound, each, pairs) = (
  omega arith,
  λ id. λ u. λ h. each id u (inside id u h),
  λ i. λ j. λ u. λ v. λ hu. λ hv. λ ne. pairs i j u v (inside i u hu) (inside j v hv) ne,
)

pub insert-IsAccounts :
    (p : Prefix) (id : ℕ) (u : User) (m : List (ℕ × User))
    → length (insert id u m) ≤ max_users
    → IsAccount p u
    → ((j : ℕ) (v : User) → lookup j m ≡ some v → id ≢ j → Differ u v)
    → IsAccounts p m
    → IsAccounts p (insert id u m)
insert-IsAccounts p id u m bound good differ (old_bound, each, pairs) = (
  bound,
  λ i. λ w. λ h. elim (insert-cases id i u w m h) [
    | inl (e, same_user) ↦ subst (IsAccount p) {x = u} {y = w} same_user good
    | inr (ne, found) ↦ each i w found
  ],
  λ i. λ j. λ w. λ v. λ hw. λ hv. λ ne. elim (insert-cases id i u w m hw) [
    | inl (e, same_user) ↦ elim (insert-cases id j u v m hv) [
      | inl (f, same_too) ↦ absurd (ne (sym e ∙ f))
      | inr (other, found) ↦
          subst (λ x. Differ x v) {x = u} {y = w} same_user (differ j v found other)
    ]
    | inr (other, found) ↦ elim (insert-cases id j u v m hv) [
      | inl (f, same_user) ↦
          subst (λ x. Differ w x) {x = u} {y = v} same_user (swap u w (differ i w found other))
      | inr (more, found_too) ↦ pairs i j w v found found_too ne
    ]
  ],
)
  where
    swap : (u v : User) → Differ u v → Differ v u
    swap u v (names, there, back) = (λ e. names (sym e), back, there)

pub untaken :
    (name : List ℕ) (m : List (ℕ × User)) (j : ℕ) (v : User)
    → name_taken none name m ≡ false
    → lookup j m ≡ some v
    → same v.name name ≡ false
unfolding name_taken lookup
untaken name [] j v free found = cc
untaken name ((i, u) ∷ m) j v free found = elim (Bool-cases (i == j)) [
  | inl e ↦
      let same_user : some u ≡ some v = rw e at found in
      let this : u ≡ v = cc in
      subst (λ x. same x.name name ≡ false) {x = u} {y = v} this (ground arith)
  | inr e ↦ untaken name m j v (ground arith) (rw e at found)
]

pub untaken_other :
    (own : ℕ) (name : List ℕ) (m : List (ℕ × User)) (j : ℕ) (v : User)
    → name_taken (some own) name m ≡ false
    → lookup j m ≡ some v
    → own ≢ j
    → same v.name name ≡ false
unfolding name_taken lookup
untaken_other own name [] j v free found ne = cc
untaken_other own name ((i, u) ∷ m) j v free found ne = elim (Bool-cases (i == j)) [
  | inl e ↦
      let same_user : some u ≡ some v = rw e at found in
      let this : u ≡ v = cc in
      subst (λ x. same x.name name ≡ false) {x = u} {y = v} this (ground arith)
  | inr e ↦ untaken_other own name m j v (ground arith) (rw e at found) ne
]

pub not_same : (a b : List ℕ) → same a b ≡ false → b ≢ a
not_same a b h e = let bad : false ≡ true = sym h ∙ (rw e (same_refl a)) in cc

-- An address that no account has is not that of any of them.
pub unused-Apart :
    (a : ℕ) (m : List (ℕ × User)) (j : ℕ) (v : User)
    → contains_word a (addresses m) ≡ false
    → lookup j m ≡ some v
    → contains_word a (address_of v.peer) ≡ false
unfolding lookup
unused-Apart a [] j v free found = cc
unused-Apart a ((i, u) ∷ m) j v free found = elim (Bool-cases (i == j)) [
  | inl e ↦
      let this : u ≡ v = (let same_user : some u ≡ some v = rw e at found in cc) in
      subst (λ x. contains_word a (address_of x.peer) ≡ false) {x = u} {y = v} this
        (contains_word-front a (address_of u.peer) (addresses m) free)
  | inr e ↦
      unused-Apart a m j v (contains_word-back a (address_of u.peer) (addresses m) free)
        (rw e at found)
]
  where
    contains_word-front :
        (a : ℕ) (l k : List ℕ) → contains_word a (l ++ k) ≡ false → contains_word a l ≡ false
    contains_word-front a [] k h = refl
    contains_word-front a (b ∷ l) k h = ground (arith, contains_word-front a l k)

    contains_word-back :
        (a : ℕ) (l k : List ℕ) → contains_word a (l ++ k) ≡ false → contains_word a k ≡ false
    contains_word-back a [] k h = h
    contains_word-back a (b ∷ l) k h = contains_word-back a l k (ground arith)

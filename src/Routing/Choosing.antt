-- ===== src/Routing/Choosing.antt =====
-- What Policy.Choose decides (internal/routing/policy.go).
use text.Mathlib.TextEquality.{eq_iff}
use quic_lab.Common.{
  ℕ, String, ◌≡◌, refl, ap, ◌≢◌, ◌⊎◌, inl, inr, Bool, true, false, ◌||◌, Option, none, some, List,
  [], ◌∷◌, arith, ==_iff, ==_refl, Bool-cases, All,
}
use quic_lab.Net.{ℤ, pos, negsuc}
use quic_lab.Net.Prefixes.{any_contains, Within, any_contains→Within, Within→any_contains}
use quic_lab.Routing.{
  Mode, Rule, is_negative, Decision, decide_as, same_int, lists_uid, consider, choose, all, apps,
  exclude, subnets, other,
}

abbrev pub OneOf : ℤ → List ℤ → Type 0
OneOf u [] = ⊥
OneOf u (x ∷ xs) = (x ≡ u) ⊎ OneOf u xs

same_int→eq : (a b : ℤ) → same_int a b ≡ true → a ≡ b
same_int→eq (pos a) (pos b) h = ap pos ((==_iff a b).0 h)
same_int→eq (negsuc a) (negsuc b) h = ap negsuc ((==_iff a b).0 h)
same_int→eq (pos a) (negsuc b) h = cc
same_int→eq (negsuc a) (pos b) h = cc

same_int_refl : (a : ℤ) → same_int a a ≡ true
same_int_refl (pos a) = ==_refl a
same_int_refl (negsuc a) = ==_refl a

lists_uid→OneOf : (us : List ℤ) (uid : ℤ) → lists_uid us uid ≡ true → OneOf uid us
lists_uid→OneOf [] uid h = cc
lists_uid→OneOf (u ∷ us) uid h = elim (Bool-cases (same_int u uid)) [
  | inl e ↦ inl (same_int→eq u uid e)
  | inr e ↦ inr (lists_uid→OneOf us uid (rw e at h))
]

OneOf→lists_uid : (us : List ℤ) (uid : ℤ) → OneOf uid us → lists_uid us uid ≡ true
OneOf→lists_uid [] uid h = absurd h
OneOf→lists_uid (u ∷ us) uid (inl e) = rw (← e, same_int_refl u) refl
OneOf→lists_uid (u ∷ us) uid (inr h) = rw (OneOf→lists_uid us uid h) (or_true (same_int u uid))
  where
    or_true : (b : Bool) → (b || true) ≡ true
    or_true true = refl
    or_true false = refl

-- The rule takes the connection.
abbrev pub Takes : Mode → Rule → ℕ → ℤ → Type 0
Takes all r dst uid = Unit {0}
Takes subnets r dst uid = Within r.prefixes dst
Takes apps r dst (pos u) = OneOf (pos u) r.uids
Takes exclude r dst (pos u) = ¬ OneOf (pos u) r.uids
Takes mode r dst uid = ⊥

-- The rule leaves the connection to the next rule.
abbrev pub Leaves : Mode → Rule → ℕ → ℤ → Type 0
Leaves subnets r dst uid = ¬ Within r.prefixes dst
Leaves apps r dst (pos u) = ¬ OneOf (pos u) r.uids
Leaves exclude r dst (pos u) = OneOf (pos u) r.uids
Leaves (other m) r dst uid = Unit {0}
Leaves mode r dst uid = ⊥

-- The rule is about applications.
abbrev pub IsAppRule : Mode → Type 0
IsAppRule apps = Unit {0}
IsAppRule exclude = Unit {0}
IsAppRule mode = ⊥

abbrev pub reason_of : Mode → String
reason_of all = "all"
reason_of subnets = "subnet"
reason_of apps = "apps"
reason_of exclude = "exclude"
reason_of (other m) = ""

-- First match, with a stop at an application rule when the owner of the connection is not known.
pub data Chosen (dst : ℕ) (uid : ℤ) : List Rule → Decision → Type 0 where
  unmatched : Chosen dst uid [] (decide_as "direct" "unmatched")
  taken :
      (r : Rule) (rs : List Rule)
      → Takes r.mode r dst uid
      → Chosen dst uid (r ∷ rs) (decide_as r.id (reason_of r.mode))
  owner_unknown :
      (r : Rule) (rs : List Rule)
      → IsAppRule r.mode
      → is_negative uid ≡ true
      → Chosen dst uid (r ∷ rs) (decide_as "" "unknown_uid")
  left :
      (r : Rule) (rs : List Rule) {d : Decision}
      → Leaves r.mode r dst uid
      → Chosen dst uid rs d
      → Chosen dst uid (r ∷ rs) d

-- What one round of the loop does, by its three outcomes.
abbrev Round : Mode → Rule → ℕ → ℤ → Option Decision → Type 0
Round mode r dst uid o =
    (Takes mode r dst uid × (o ≡ some (decide_as r.id (reason_of mode))))
    ⊎ (IsAppRule mode × (is_negative uid ≡ true) × (o ≡ some (decide_as "" "unknown_uid")))
    ⊎ (Leaves mode r dst uid × (o ≡ none))

consider-Round :
    (mode : Mode) (r : Rule) (dst : ℕ) (uid : ℤ) → Round mode r dst uid (consider mode r dst uid)
unfolding consider
consider-Round all r dst uid = inl (tt, refl)
consider-Round subnets r dst uid = elim (Bool-cases (any_contains r.prefixes dst)) [
  | inl e ↦ inl (any_contains→Within r.prefixes dst e, rw e refl)
  | inr e ↦ inr (inr ((λ w. cc (Within→any_contains r.prefixes dst w)), rw e refl))
]
consider-Round apps r dst (negsuc u) = inr (inl (tt, refl, refl))
consider-Round exclude r dst (negsuc u) = inr (inl (tt, refl, refl))
consider-Round apps r dst (pos u) = elim (Bool-cases (lists_uid r.uids (pos u))) [
  | inl e ↦ inl (lists_uid→OneOf r.uids (pos u) e, rw e refl)
  | inr e ↦ inr (inr ((λ w. cc (OneOf→lists_uid r.uids (pos u) w)), rw e refl))
]
consider-Round exclude r dst (pos u) = elim (Bool-cases (lists_uid r.uids (pos u))) [
  | inr e ↦ inl ((λ w. cc (OneOf→lists_uid r.uids (pos u) w)), rw e refl)
  | inl e ↦ inr (inr (lists_uid→OneOf r.uids (pos u) e, rw e refl))
]
consider-Round (other m) r dst uid = inr (inr (tt, refl))

-- Choose decides by the first rule that takes the connection; before one, an application rule for a
-- connection whose owner is not known blocks it; and with neither, the connection goes direct.
pub choose-Chosen :
    (rules : List Rule) (dst : ℕ) (uid : ℤ) → Chosen dst uid rules (choose rules dst uid)
unfolding choose
choose-Chosen [] dst uid = unmatched
choose-Chosen (r ∷ rs) dst uid = elim (consider-Round r.mode r dst uid) [
  | inl (t, e) ↦ rw (e, choose) (taken r rs t)
  | inr (inl (a, n, e)) ↦ rw (e, choose) (owner_unknown r rs a n)
  | inr (inr (l, e)) ↦ rw (e, choose) (left r rs l (choose-Chosen rs dst uid))
]

abbrev pub HasAppRule : List Rule → Type 0
HasAppRule [] = ⊥
HasAppRule (r ∷ rs) = IsAppRule r.mode ⊎ HasAppRule rs

no_app_left : (mode : Mode) (r : Rule) (dst n : ℕ) → Leaves mode r dst (negsuc n) → ¬ IsAppRule mode
no_app_left all r dst n l a = l
no_app_left apps r dst n l a = l
no_app_left exclude r dst n l a = l
no_app_left subnets r dst n l a = a
no_app_left (other m) r dst n l a = a

empty_ne_direct : ◌≢◌ {A = String} "" "direct"
empty_ne_direct = ground (arith, eq_iff "" "direct")

pub Chosen-ne-direct :
    (dst n : ℕ) {rules : List Rule} {d : Decision}
    → Chosen dst (negsuc n) rules d
    → All (λ (r : Rule). r.id ≢ "direct") rules
    → HasAppRule rules
    → d.profile ≢ "direct"
Chosen-ne-direct dst n unmatched ids app = absurd app
Chosen-ne-direct dst n (taken r rs t) ids app = ids.0
Chosen-ne-direct dst n (owner_unknown r rs a u) ids app = empty_ne_direct
Chosen-ne-direct dst n (left r rs l c) ids (inl a) = absurd (no_app_left r.mode r dst n l a)
Chosen-ne-direct dst n (left r rs l c) ids (inr a) = Chosen-ne-direct dst n c ids.1 a

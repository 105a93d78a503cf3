-- ===== src/Routing.antt =====
-- internal/routing/policy.go: ordered rules that give each connection a VPN profile.
-- `parse` starts from the rules that encoding/json has decoded.
pub mod Parsing
pub mod Choosing
use text.Mathlib.Text.{◌==◌ as str_eq}
use quic_lab.Common.{
  ℕ, String, Bool, true, false, ◌||◌, Option, none, some, List, [], ◌∷◌, ◌++◌, ltb, ◌==◌,
  if◌then◌else◌, length,
}
use quic_lab.Net.Prefixes.{any_contains}
use quic_lab.Net.{ℤ, Prefix, masked, parse_prefix, pos, negsuc}

pub data Mode : Type 0 where
  all apps exclude subnets : Mode
  other : String → Mode

pub record Rule : Type 0 where
  pub id : String
  pub mode : Mode
  pub uids : List ℤ
  pub subnet_texts : List (List ℕ)
  pub prefixes : List Prefix

pub data PolicyError : Type 0 where
  profile_count bad_profile bad_uid bad_mode : PolicyError
  no_apps no_subnets : String → PolicyError
  bad_subnet : List ℕ → PolicyError

pub data Parsed {ℓ} (A : Type ℓ) : Type ℓ where
  parsed : A → Parsed A
  refused : PolicyError → Parsed A

infixl 5 ◌>>=◌
abbrev pub ◌>>=◌ {ℓ κ} : {A : Type ℓ} {B : Type κ} → Parsed A → (A → Parsed B) → Parsed B
parsed a >>= f = f a
refused e >>= f = refused e

abbrev pub is_negative : ℤ → Bool
is_negative (pos n) = false
is_negative (negsuc n) = true

abbrev pub any_negative : List ℤ → Bool
any_negative [] = false
any_negative (u ∷ us) = is_negative u || any_negative us

abbrev pub is_empty {ℓ} : {A : Type ℓ} → List A → Bool
is_empty [] = true
is_empty (x ∷ xs) = false

unfoldable pub parse_subnets : List (List ℕ) → Parsed (List Prefix)
parse_subnets [] = parsed []
parse_subnets (s ∷ ss) = elim (parse_prefix s) [
  | none ↦ refused (bad_subnet s)
  | some p ↦ elim (parse_subnets ss) [ refused e ↦ refused e | parsed ps ↦ parsed (masked p ∷ ps) ]
]

-- The `switch` on the rule's mode.
unfoldable pub check_mode : Mode → Rule → Parsed Rule
check_mode all r = parsed r
check_mode apps r =
    if is_empty r.uids
    then refused (no_apps r.id)
    else (if any_negative r.uids then refused bad_uid else parsed r)
check_mode exclude r = if any_negative r.uids then refused bad_uid else parsed r
check_mode subnets r =
    if is_empty r.subnet_texts
    then refused (no_subnets r.id)
    else (do ps ← parse_subnets r.subnet_texts; parsed (record r { prefixes = r.prefixes ++ ps }))
check_mode (other m) r = refused bad_mode

abbrev pub was_seen : String → List String → Bool
was_seen id [] = false
was_seen id (s ∷ ss) = str_eq s id || was_seen id ss

unfoldable pub check_rules : List String → List Rule → Parsed (List Rule)
unfolding check_mode parse_subnets
check_rules seen [] = parsed []
check_rules seen (r ∷ rs) =
    if str_eq r.id "" || str_eq r.id "direct" || was_seen r.id seen
    then refused bad_profile
    else elim (check_mode r.mode r) [
      | refused e ↦ refused e
      | parsed r' ↦ elim (check_rules (r.id ∷ seen) rs) [
        | refused e ↦ refused e
        | parsed rs' ↦ parsed (r' ∷ rs')
      ]
    ]

-- Parse, on decoded rules.
unfoldable pub parse : List Rule → Parsed (List Rule)
unfolding check_rules
parse rules =
    if length rules == 0 || ltb 32 (length rules)
    then refused profile_count
    else check_rules [] rules

pub record Decision : Type 0 where
  pub profile : String
  pub reason : String

abbrev pub decide_as : String → String → Decision
decide_as p r = record { profile = p; reason = r }

abbrev pub same_int : ℤ → ℤ → Bool
same_int (pos a) (pos b) = a == b
same_int (negsuc a) (negsuc b) = a == b
same_int a b = false

abbrev pub lists_uid : List ℤ → ℤ → Bool
lists_uid [] uid = false
lists_uid (u ∷ us) uid = same_int u uid || lists_uid us uid

-- One round of the loop of Choose: a decision, or on to the next rule.
unfoldable pub consider : Mode → Rule → ℕ → ℤ → Option Decision
unfolding any_contains
consider all r dst uid = some (decide_as r.id "all")
consider subnets r dst uid =
    if any_contains r.prefixes dst then some (decide_as r.id "subnet") else none
consider apps r dst uid =
    if is_negative uid
    then some (decide_as "" "unknown_uid")
    else (if lists_uid r.uids uid then some (decide_as r.id "apps") else none)
consider exclude r dst uid =
    if is_negative uid
    then some (decide_as "" "unknown_uid")
    else (if lists_uid r.uids uid then none else some (decide_as r.id "exclude"))
consider (other m) r dst uid = none

unfoldable pub choose : List Rule → ℕ → ℤ → Decision
unfolding consider
choose [] dst uid = decide_as "direct" "unmatched"
choose (r ∷ rs) dst uid = elim (consider r.mode r dst uid) [ some d ↦ d | none ↦ choose rs dst uid ]

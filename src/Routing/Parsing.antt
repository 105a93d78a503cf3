-- ===== src/Routing/Parsing.antt =====
-- What Parse lets through (internal/routing/policy.go).
use text.Mathlib.Text.{◌==◌ as str_eq}
use text.Mathlib.TextEquality.{eq_iff}
use mathlib.Core.Path.{subst}
use quic_lab.Routing.{
  Mode, Rule, Parsed, ◌>>=◌, is_negative, any_negative, is_empty, parse_subnets, check_mode,
  was_seen, check_rules, parse, choose, all, apps, exclude, subnets, other, parsed, refused,
}
use quic_lab.Common.{
  ℕ, suc, ◌≤◌, String, ◌≡◌, refl, sym, ap, ◌∙◌, ◌≢◌, inl, inr, Bool, false, ◌||◌, List, [], ◌∷◌,
  ◌++◌, arith, ltb, ◌==◌, Bool-cases, if_cases, length, All, length-append,
}
use quic_lab.Net.{ℤ, Prefix, negsuc}
use quic_lab.Routing.Choosing.{choose-Chosen, HasAppRule, Chosen-ne-direct}

-- No negative UID in the list.
abbrev pub NonNegative : List ℤ → Type 0
NonNegative = All (λ (u : ℤ). is_negative u ≡ false)

any_negative→NonNegative : (us : List ℤ) → any_negative us ≡ false → NonNegative us
any_negative→NonNegative [] h = tt
any_negative→NonNegative (u ∷ us) h = elim (Bool-cases (is_negative u)) [
  | inl e ↦ absurd (cc (rw e at h))
  | inr e ↦ (e, any_negative→NonNegative us (rw e at h))
]

-- The rule is complete for its mode.
abbrev pub IsComplete : Mode → Rule → Type 0
IsComplete all r = Unit {0}
IsComplete apps r = (r.uids ≢ []) × NonNegative r.uids
IsComplete exclude r = NonNegative r.uids
IsComplete subnets r = (r.subnet_texts ≢ []) × (length r.subnet_texts ≤ length r.prefixes)
IsComplete (other m) r = ⊥

is_empty→ne {ℓ} : {A : Type ℓ} (xs : List A) → is_empty xs ≡ false → xs ≢ []
is_empty→ne [] h = cc
is_empty→ne (x ∷ xs) h = λ e. cc

length-parse_subnets :
    (ss : List (List ℕ)) (ps : List Prefix) → parse_subnets ss ≡ parsed ps → length ps ≡ length ss
unfolding parse_subnets
length-parse_subnets [] ps h = ground arith
length-parse_subnets (s ∷ ss) ps h = ground (arith, length-parse_subnets ss (tail_of ps))
  where
    tail_of : List Prefix → List Prefix
    tail_of [] = []
    tail_of (q ∷ qs) = qs

-- A property of what was parsed; nothing is said of a refusal.
abbrev pub OnParsed {ℓ} : {A : Type ℓ} → (A → Type 0) → Parsed A → Type 0
OnParsed P (parsed a) = P a
OnParsed P (refused e) = Unit {0}

abbrev Checked : Mode → Rule → Rule → Type 0
Checked mode r r' = (r'.id ≡ r.id) × (r'.mode ≡ r.mode) × IsComplete mode r'

subnets-Checked :
    (r : Rule) (o : Parsed (List Prefix))
    → parse_subnets r.subnet_texts ≡ o
    → r.subnet_texts ≢ []
    → OnParsed (Checked subnets r) (o >>= λ ps. parsed (record r { prefixes = r.prefixes ++ ps }))
subnets-Checked r (refused e) eq some_text = tt
subnets-Checked r (parsed ps) eq some_text = (
  refl,
  refl,
  (
    some_text,
    omega (arith, length-parse_subnets r.subnet_texts ps eq, length-append r.prefixes ps),
  ),
)

check_mode-Checked : (mode : Mode) (r : Rule) → OnParsed (Checked mode r) (check_mode mode r)
unfolding check_mode
check_mode-Checked all r = (refl, refl, tt)
check_mode-Checked (other m) r = tt
check_mode-Checked exclude r =
    if_cases (OnParsed (Checked exclude r)) (any_negative r.uids) _ _ (λ _. tt)
      (λ e. (refl, refl, any_negative→NonNegative r.uids e))
check_mode-Checked apps r =
    if_cases (OnParsed (Checked apps r)) (is_empty r.uids) _ _ (λ _. tt)
      λ some_uid.
        if_cases (OnParsed (Checked apps r)) (any_negative r.uids) _ _ (λ _. tt)
          (λ e. (refl, refl, (is_empty→ne r.uids some_uid, any_negative→NonNegative r.uids e)))
check_mode-Checked subnets r =
    if_cases (OnParsed (Checked subnets r)) (is_empty r.subnet_texts) _ _ (λ _. tt)
      λ some_text.
        subnets-Checked r (parse_subnets r.subnet_texts) refl (is_empty→ne r.subnet_texts some_text)

-- The rules of a policy, behind rules with the ids `seen`.
abbrev pub IsAdmitted : List String → List Rule → Type 0
IsAdmitted seen [] = Unit {0}
IsAdmitted seen (r ∷ rs) =
    (r.id ≢ "")
    × (r.id ≢ "direct")
    × All (λ s. s ≢ r.id) seen
    × IsComplete r.mode r
    × IsAdmitted (r.id ∷ seen) rs

was_seen→fresh :
    (id : String) (seen : List String) → was_seen id seen ≡ false → All (λ s. s ≢ id) seen
was_seen→fresh id [] h = tt
was_seen→fresh id (s ∷ seen) h = elim (Bool-cases (str_eq s id)) [
  | inl e ↦ absurd (cc (rw e at h))
  | inr e ↦ ((λ p. cc (e, (eq_iff s id).1 p)), was_seen→fresh id seen (rw e at h))
]

str_ne : (a b : String) → str_eq a b ≡ false → a ≢ b
str_ne a b h p = cc (h, (eq_iff a b).1 p)

check_rules-IsAdmitted :
    (seen : List String) (rules : List Rule)
    → OnParsed (λ rs. (length rs ≡ length rules) × IsAdmitted seen rs) (check_rules seen rules)
unfolding check_rules
check_rules-IsAdmitted seen [] = (refl, tt)
check_rules-IsAdmitted seen (r ∷ rs) =
    if_cases (OnParsed Good) (str_eq r.id "" || str_eq r.id "direct" || was_seen r.id seen) _ _
      (λ _. tt)
      (λ fresh.
        checked fresh (check_mode r.mode r) (check_mode-Checked r.mode r)
          (check_rules-IsAdmitted (r.id ∷ seen) rs))
  where
    Good : List Rule → Type 0
    Good rs' = (length rs' ≡ length (r ∷ rs)) × IsAdmitted seen rs'

    none_of : (a b c : Bool) → (a || b || c) ≡ false → (a ≡ false) × (b ≡ false) × (c ≡ false)
    none_of a b c h = ground arith

    joined :
        (r' : Rule) (o : Parsed (List Rule))
        → (str_eq r.id "" || str_eq r.id "direct" || was_seen r.id seen) ≡ false
        → Checked r.mode r r'
        → OnParsed (λ rs'. (length rs' ≡ length rs) × IsAdmitted (r.id ∷ seen) rs') o
        → OnParsed Good (elim o [ refused e ↦ refused e | parsed rs' ↦ parsed (r' ∷ rs') ])
    joined r' (refused e) fresh c h = tt
    joined r' (parsed rs') fresh (i, m, c) (len, h) =
        let (not_empty, not_direct, new) =
          none_of (str_eq r.id "") (str_eq r.id "direct") (was_seen r.id seen) fresh in
        (
          ap suc len,
          (
            (λ e. str_ne r.id "" not_empty (sym i ∙ e)),
            (λ e. str_ne r.id "direct" not_direct (sym i ∙ e)),
            rw i (was_seen→fresh r.id seen new),
            subst (λ (mo : Mode). IsComplete mo r') (sym m) c,
            rw i h,
          ),
        )

    checked :
        (str_eq r.id "" || str_eq r.id "direct" || was_seen r.id seen) ≡ false
        → (o : Parsed Rule) → OnParsed (Checked r.mode r) o
        → OnParsed
            (λ rs'. (length rs' ≡ length rs) × IsAdmitted (r.id ∷ seen) rs')
            (check_rules (r.id ∷ seen) rs)
        → OnParsed Good (elim o [
          | refused e ↦ refused e
          | parsed r' ↦ elim (check_rules (r.id ∷ seen) rs) [
            | refused e ↦ refused e
            | parsed rs' ↦ parsed (r' ∷ rs')
          ]
        ])
    checked fresh (refused e) h ih = tt
    checked fresh (parsed r') h ih = joined r' (check_rules (r.id ∷ seen) rs) fresh h ih

-- Every policy that Parse returns has as many rules as its text, 1 to 32, and their profiles are
-- named, none is called "direct" and no two alike; each rule is complete for its mode: applications
-- to choose, no negative UID, IPv4 subnets to match, and no other mode than the four.
pub parse-IsAdmitted :
    (rules : List Rule)
    → OnParsed
        (λ rs. (length rs ≡ length rules) × (1 ≤ length rs) × (length rs ≤ 32) × IsAdmitted [] rs)
        (parse rules)
unfolding parse
parse-IsAdmitted rules =
    if_cases (OnParsed Good) (length rules == 0 || ltb 32 (length rules)) _ _ (λ _. tt)
      (λ few. sized few (check_rules [] rules) (check_rules-IsAdmitted [] rules))
  where
    Good : List Rule → Type 0
    Good rs = (length rs ≡ length rules) × (1 ≤ length rs) × (length rs ≤ 32) × IsAdmitted [] rs

    sized :
        (length rules == 0 || ltb 32 (length rules)) ≡ false
        → (o : Parsed (List Rule))
        → OnParsed (λ rs. (length rs ≡ length rules) × IsAdmitted [] rs) o
        → OnParsed Good o
    sized few (refused e) h = tt
    sized few (parsed rs) h = (h.0, ground arith, ground arith, h.1)

admitted_ids :
    (seen : List String) (rs : List Rule)
    → IsAdmitted seen rs
    → All (λ (r : Rule). r.id ≢ "direct") rs
admitted_ids seen [] h = tt
admitted_ids seen (r ∷ rs) h = (h.1, admitted_ids (r.id ∷ seen) rs h.4)

-- With a policy that Parse returned, a connection whose owner is not known never goes direct if the
-- policy has a rule about applications.
pub choose-ne-direct :
    (rules rs : List Rule) (dst n : ℕ)
    → parse rules ≡ parsed rs
    → HasAppRule rs
    → (choose rs dst (negsuc n)).profile ≢ "direct"
choose-ne-direct rules rs dst n e app =
    let admitted =
      subst
        (OnParsed (λ ps.
          (length ps ≡ length rules) × (1 ≤ length ps) × (length ps ≤ 32) × IsAdmitted [] ps))
        e (parse-IsAdmitted rules) in
    Chosen-ne-direct dst n (choose-Chosen rs dst (negsuc n)) (admitted_ids [] rs admitted.3) app

-- ===== src/Mobile/Router/Living.antt =====
-- mobile/multiple.go: what holds of the router's tables in every state.
use text.Mathlib.Text.{◌==◌ as str_eq}
use text.Mathlib.TextEquality.{eq_iff}
use mathlib.Core.Path.{subst}
use quic_lab.Common.{
  ℕ, ◌+◌, ◌<◌, String, ◌≡◌, refl, sym, ◌∙◌, ◌≢◌, inl, inr, true, false, Option, none, some, List,
  [], ◌∷◌, ◌++◌, arith, ◌==◌, Bool-cases, if_cases,
}
use quic_lab.Routing.{Rule}
use quic_lab.Mobile.Router.{
  find, remove, Profile, Router, names_rule, is_disabled, stop_old, holds_number, handlers_of,
}
use quic_lab.Mobile.Router.Tables.{find-remove-cases}

-- A profile that is found is not stopped, and its name is neither disabled nor empty.
pub record IsFound (m : Router) (id : String) (p : Profile) : Type 0 where
  pub not_stopped : holds_number p.handler m.stopped ≡ false
  pub is_old : p.handler < m.next_handler
  pub not_disabled : is_disabled id m.disabled ≡ false
  pub not_empty : str_eq id "" ≡ false

abbrev pub AllOld : ℕ → List (String × Profile) → Type 0
AllOld limit [] = Unit {0}
AllOld limit ((id, p) ∷ m) = (p.handler < limit) × AllOld limit m

remove-AllOld :
    (id : String) (limit : ℕ) (m : List (String × Profile))
    → AllOld limit m
    → AllOld limit (remove id m)
unfolding remove
remove-AllOld id limit [] h = tt
remove-AllOld id limit ((key, p) ∷ m) h =
    if_cases (AllOld limit) (str_eq key id) (remove id m) ((key, p) ∷ remove id m)
      (λ e. remove-AllOld id limit m h.1) (λ e. (h.0, remove-AllOld id limit m h.1))

pub AllOld-later : (limit : ℕ) (m : List (String × Profile)) → AllOld limit m → AllOld (limit + 1) m
AllOld-later limit [] h = tt
AllOld-later limit ((key, p) ∷ m) h = (omega (arith, h.0), AllOld-later limit m h.1)

pub handlers_old :
    (h limit : ℕ) (m : List (String × Profile)) (stopped : List ℕ)
    → AllOld limit m
    → (holds_number h stopped ≡ true → h < limit)
    → holds_number h (handlers_of m ++ stopped) ≡ true
    → h < limit
handlers_old h limit [] stopped old below s = below s
handlers_old h limit ((key, p) ∷ m) stopped (first, old) below s =
    elim (Bool-cases (p.handler == h)) [
      | inl e ↦ ground arith
      | inr e ↦ handlers_old h limit m stopped old below (rw e at s)
    ]

pub record IsRouter (m : Router) : Type 0 where
  pub no_empty_rule : names_rule "" m.policy ≡ false
  pub is_found : (id : String) (p : Profile) → find id m.profiles ≡ some p → IsFound m id p
  pub own_handlers :
      (i j : String) (p q : Profile)
      → find i m.profiles ≡ some p
      → find j m.profiles ≡ some q
      → p.handler ≡ q.handler
      → i ≡ j
  pub old_stopped : (h : ℕ) → holds_number h m.stopped ≡ true → h < m.next_handler
  pub all_old : AllOld m.next_handler m.profiles
  pub closed_is_empty : m.closed ≡ true → m.profiles ≡ []

-- A rule with a name other than the empty one.
pub named_rule-ne :
    (id : String) (rules : List Rule)
    → names_rule "" rules ≡ false
    → names_rule id rules ≡ true
    → str_eq id "" ≡ false
named_rule-ne id rules none_empty named = elim (Bool-cases (str_eq id "")) [
  | inl e ↦ absurd (
      let empty_named : names_rule "" rules ≡ true =
        subst (λ x. names_rule x rules ≡ true) ((eq_iff id "").0 e) named in
      let bad : true ≡ false = sym empty_named ∙ none_empty in cc)
  | inr e ↦ e
]

-- Another handler than the one that is stopped.
stop_old-other :
    (o : Option Profile) (h : ℕ) (stopped : List ℕ)
    → ((q : Profile) → o ≡ some q → h ≢ q.handler)
    → holds_number h stopped ≡ false
    → holds_number h (stop_old o stopped) ≡ false
stop_old-other none h stopped ne s = s
stop_old-other (some q) h stopped ne s = let differs = ne q refl in ground arith

stop_old-below :
    (o : Option Profile) (h limit : ℕ) (stopped : List ℕ)
    → ((q : Profile) → o ≡ some q → q.handler < limit)
    → (holds_number h stopped ≡ true → h < limit)
    → holds_number h (stop_old o stopped) ≡ true
    → h < limit
stop_old-below none h limit stopped q_below below s = below s
stop_old-below (some q) h limit stopped q_below below s = elim (Bool-cases (q.handler == h)) [
  | inl e ↦ let q_old = q_below q refl in ground arith
  | inr e ↦ below (rw e at s)
]

-- One profile goes out of the table.
pub removed-IsRouter :
    (id : String) (m : Router)
    → IsRouter m
    → IsRouter (record m {
      profiles = remove id m.profiles;
      stopped = stop_old (find id m.profiles) m.stopped;
    })
removed-IsRouter id m good = record {
  no_empty_rule = good.no_empty_rule;
  is_found = λ j p found.
      let (ne, old) = find-remove-cases id j m.profiles p found in
      let was = good.is_found j p old in
      record {
        not_stopped =
            stop_old-other (find id m.profiles) p.handler m.stopped
              (λ q here same. ne (sym (good.own_handlers j id p q old here same))) was.not_stopped;
        is_old = was.is_old;
        not_disabled = was.not_disabled;
        not_empty = was.not_empty;
      };
  own_handlers = λ i j p q f g same.
      good.own_handlers i j p q (find-remove-cases id i m.profiles p f).1
        (find-remove-cases id j m.profiles q g).1 same;
  old_stopped = λ h s.
      stop_old-below (find id m.profiles) h m.next_handler m.stopped
        (λ q here. (good.is_found id q here).is_old) (good.old_stopped h) s;
  all_old = remove-AllOld id m.next_handler m.profiles good.all_old;
  closed_is_empty = λ c. rw (good.closed_is_empty c) (unfold remove in refl);
}

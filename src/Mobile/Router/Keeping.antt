-- ===== src/Mobile/Router/Keeping.antt =====
-- mobile/multiple.go: every call keeps what holds of the router's tables.
use text.Mathlib.Text.{◌==◌ as str_eq}
use text.Mathlib.TextEquality.{eq_iff}
use mathlib.Core.Path.{subst}
use quic_lab.Common.{
  ℕ, ◌+◌, String, ◌≡◌, refl, sym, ap, ◌∙◌, ◌≢◌, inl, inr, Bool, true, false, not, ◌||◌, Option,
  none, some, List, [], ◌∷◌, ◌++◌, arith, if◌then◌else◌, Bool-cases, if_cases,
}
use quic_lab.Mobile.Router.{
  find, remove, Profile, Router, names_rule, RouterError, flag_of, is_disabled, stop_old,
  set_gateway, set_enabled, is_other_gateway, remove_gateway, holds_number, handlers_of,
  close_router,
}
use quic_lab.Mobile.Router.Tables.{
  find_hit, find_miss, find-remove_miss, find-remove-cases, find-put-cases,
}
use quic_lab.Mobile.Router.Steps.{
  RouterStep, RouterReach, sets, enables, disables, removes, closes, unmoved, moved,
}
use quic_lab.Mobile.Router.Living.{
  IsFound, AllOld-later, handlers_old, IsRouter, named_rule-ne, removed-IsRouter,
}

pub is_disabled_put :
    (id j : String) (b : Bool) (d : List (String × Bool))
    → is_disabled j ((id, b) ∷ remove id d) ≡ (if str_eq id j then b else is_disabled j d)
unfolding is_disabled
is_disabled_put id j b d = elim (Bool-cases (str_eq id j)) [
  | inl e ↦ ap flag_of (find_hit j id b (remove id d) ((eq_iff id j).0 e)) ∙ (rw e refl)
  | inr e ↦
      let ne : id ≢ j = (λ same. let bad : true ≡ false = sym ((eq_iff id j).1 same) ∙ e in cc) in
      ap flag_of (find_miss j id b (remove id d) e ∙ find-remove_miss id j d ne) ∙ (rw e refl)
]

enabled-IsRouter :
    (id : String) (m : Router)
    → IsRouter m
    → IsRouter (record m { disabled = (id, false) ∷ remove id m.disabled })
enabled-IsRouter id m good = record {
  no_empty_rule = good.no_empty_rule;
  is_found = λ j p found.
      let was = good.is_found j p found in
      record {
        not_stopped = was.not_stopped;
        is_old = was.is_old;
        not_disabled =
            is_disabled_put id j false m.disabled
            ∙ if_cases (λ b. b ≡ false) (str_eq id j) false (is_disabled j m.disabled) (λ e. refl)
                (λ e. was.not_disabled);
        not_empty = was.not_empty;
      };
  own_handlers = good.own_handlers;
  old_stopped = good.old_stopped;
  all_old = good.all_old;
  closed_is_empty = good.closed_is_empty;
}

disabled-IsRouter :
    (id : String) (m : Router)
    → IsRouter m
    → IsRouter (record m {
      disabled = (id, true) ∷ remove id m.disabled;
      profiles = remove id m.profiles;
      stopped = stop_old (find id m.profiles) m.stopped;
    })
disabled-IsRouter id m good =
    let gone = removed-IsRouter id m good in
    record {
      no_empty_rule = gone.no_empty_rule;
      is_found = λ j p found.
          let was = gone.is_found j p found in
          let (ne, old) = find-remove-cases id j m.profiles p found in
          record {
            not_stopped = was.not_stopped;
            is_old = was.is_old;
            not_disabled =
                is_disabled_put id j true m.disabled
                ∙ if_cases (λ b. b ≡ false) (str_eq id j) true (is_disabled j m.disabled)
                    (λ e. absurd (ne ((eq_iff id j).0 e))) (λ e. was.not_disabled);
            not_empty = was.not_empty;
          };
      own_handlers = gone.own_handlers;
      old_stopped = gone.old_stopped;
      all_old = gone.all_old;
      closed_is_empty = gone.closed_is_empty;
    }

put-IsRouter :
    (id : String) (g : ℕ) (m : Router)
    → (m.closed || is_disabled id m.disabled) ≡ false
    → names_rule id m.policy ≡ true
    → IsRouter m
    → IsRouter (record m {
      profiles = (id, record { handler = m.next_handler; gateway = g }) ∷ remove id m.profiles;
      next_handler = m.next_handler + 1;
      stopped = stop_old (find id m.profiles) m.stopped;
    })
put-IsRouter id g m open_now named good =
    let gone = removed-IsRouter id m good in
    record {
      no_empty_rule = good.no_empty_rule;
      is_found = λ j p found. elim (find-put-cases id j new p m.profiles found) [
        | inl (same, this) ↦
            subst (λ k. IsFound next k p) same (subst (λ q. IsFound next id q) this new_found)
        | inr (ne, old) ↦
            let was = gone.is_found j p (find-remove_miss id j m.profiles ne ∙ old) in
            record {
              not_stopped = was.not_stopped;
              is_old = (let lt = was.is_old in omega arith);
              not_disabled = was.not_disabled;
              not_empty = was.not_empty;
            }
      ];
      own_handlers = λ i j p q f h same. elim (find-put-cases id i new p m.profiles f) [
        | inl (at_i, is_new) ↦ elim (find-put-cases id j new q m.profiles h) [
          | inl (at_j, also_new) ↦ sym at_i ∙ at_j
          | inr (ne, old) ↦ absurd (not_new j q old (ap (λ (x : Profile). x.handler) is_new ∙ same))
        ]
        | inr (ne, old) ↦ elim (find-put-cases id j new q m.profiles h) [
          | inl (at_j, is_new) ↦
              absurd (not_new i p old (ap (λ (x : Profile). x.handler) is_new ∙ sym same))
          | inr (ne', old') ↦ good.own_handlers i j p q old old' same
        ]
      ];
      old_stopped = λ h s. (let lt = gone.old_stopped h s in omega arith);
      all_old = (omega arith, AllOld-later m.next_handler (remove id m.profiles) gone.all_old);
      closed_is_empty = λ c. absurd (ground arith);
    }
  where
    new : Profile
    new = record { handler = m.next_handler; gateway = g }

    next : Router
    next = record m {
      profiles = (id, new) ∷ remove id m.profiles;
      next_handler = m.next_handler + 1;
      stopped = stop_old (find id m.profiles) m.stopped;
    }

    not_yet : holds_number m.next_handler (stop_old (find id m.profiles) m.stopped) ≡ false
    not_yet =
        elim (Bool-cases (holds_number m.next_handler (stop_old (find id m.profiles) m.stopped))) [
          | inl e ↦
              absurd
                (let lt = (removed-IsRouter id m good).old_stopped m.next_handler e in omega arith)
          | inr e ↦ e
        ]

    not_new : (j : String) (q : Profile) → find j m.profiles ≡ some q → m.next_handler ≢ q.handler
    not_new j q old same = (let lt = (good.is_found j q old).is_old in omega (arith, same))

    new_found : IsFound next id new
    new_found = record {
      not_stopped = not_yet;
      is_old = omega arith;
      not_disabled = ground arith;
      not_empty = named_rule-ne id m.policy good.no_empty_rule named;
    }

closed-IsRouter :
    (m : Router)
    → IsRouter m
    → IsRouter
        (record m { closed = true; profiles = []; stopped = handlers_of m.profiles ++ m.stopped })
closed-IsRouter m good = record {
  no_empty_rule = good.no_empty_rule;
  is_found = λ j p found. absurd (let bad : none ≡ some p = unfold find in found in cc);
  own_handlers = λ i j p q f h same. absurd (let bad : none ≡ some p = unfold find in f in cc);
  old_stopped =
      λ h s. handlers_old h m.next_handler m.profiles m.stopped good.all_old (good.old_stopped h) s;
  all_old = tt;
  closed_is_empty = λ c. refl;
}

set_gateway-IsRouter :
    (id : String) (g : Option ℕ) (m : Router) → IsRouter m → IsRouter (set_gateway id g m).1
unfolding set_gateway
set_gateway-IsRouter id none m good = good
set_gateway-IsRouter id (some g) m good =
    if_cases P (m.closed || is_disabled id m.disabled) _ _ (λ e. good)
      (λ e.
        if_cases P (not (names_rule id m.policy)) _ _ (λ f. good)
          (λ f. put-IsRouter id g m e (ground arith) good))
  where
    P : Option RouterError × Router → Type 0
    P r = IsRouter r.1

set_enabled-IsRouter :
    (id : String) (on : Bool) (m : Router) → IsRouter m → IsRouter (set_enabled id on m)
unfolding set_enabled
set_enabled-IsRouter id on m good =
    if_cases IsRouter (str_eq id "direct" || m.closed) _ _ (λ e. good)
      (λ e.
        if_cases IsRouter on _ _ (λ f. enabled-IsRouter id m good)
          (λ f. disabled-IsRouter id m good))

remove_gateway-IsRouter :
    (id : String) (g : Option ℕ) (m : Router) → IsRouter m → IsRouter (remove_gateway id g m)
unfolding remove_gateway
remove_gateway-IsRouter id g m good =
    if_cases IsRouter (str_eq id "direct") _ _ (λ e. good)
      (λ e.
        if_cases IsRouter (is_other_gateway g (find id m.profiles)) _ _ (λ f. good)
          (λ f. removed-IsRouter id m good))

close_router-IsRouter : (m : Router) → IsRouter m → IsRouter (close_router m)
unfolding close_router
close_router-IsRouter m good =
    if_cases IsRouter m.closed _ _ (λ e. good) (λ e. closed-IsRouter m good)

RouterStep-IsRouter : {m n : Router} → RouterStep m n → IsRouter m → IsRouter n
RouterStep-IsRouter {m} (sets id g) good = set_gateway-IsRouter id g m good
RouterStep-IsRouter {m} (enables id) good = set_enabled-IsRouter id true m good
RouterStep-IsRouter {m} (disables id) good = set_enabled-IsRouter id false m good
RouterStep-IsRouter {m} (removes id g) good = remove_gateway-IsRouter id g m good
RouterStep-IsRouter {m} closes good = close_router-IsRouter m good

pub RouterReach-IsRouter : {m n : Router} → IsRouter m → RouterReach m n → IsRouter n
RouterReach-IsRouter good unmoved = good
RouterReach-IsRouter good (moved r step) = RouterStep-IsRouter step (RouterReach-IsRouter good r)

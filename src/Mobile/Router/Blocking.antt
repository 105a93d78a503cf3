-- ===== src/Mobile/Router/Blocking.antt =====
-- mobile/multiple.go: a profile that was switched off gets no flow until it is switched on.
use text.Mathlib.Text.{◌==◌ as str_eq}
use text.Mathlib.TextEquality.{eq_iff}
use quic_lab.Common.{
  ℕ, String, ◌≡◌, refl, ◌≢◌, inl, inr, Bool, true, false, not, ◌||◌, Option, none, some, List, ◌∷◌,
  arith, Bool-cases, if_cases,
}
use quic_lab.Net.{ℤ}
use quic_lab.Mobile.Router.{
  find, remove, Profile, Router, names_rule, RouterError, is_disabled, set_gateway, set_enabled,
  is_other_gateway, remove_gateway, decide_flow, ready_handler, select_flow, close_router,
}
use quic_lab.Mobile.Router.Keeping.{is_disabled_put}
use quic_lab.Mobile.Router.Steps.{RouterStep, sets, enables, disables, removes, closes}

-- The call does not switch the profile on.
abbrev pub IsQuiet : String → {m n : Router} → RouterStep m n → Type 0
IsQuiet id (enables j) = j ≢ id
IsQuiet id step = Unit {0}

pub data QuietReach (id : String) (m : Router) : Router → Type 0 where
  still : QuietReach id m m
  and_quiet :
      {n o : Router}
      → QuietReach id m n
      → (step : RouterStep n o) → IsQuiet id step
      → QuietReach id m o

-- The router is closed, or the profile is off.
abbrev IsOff : String → Router → Type 0
IsOff id m = (m.closed || is_disabled id m.disabled) ≡ true

set_gateway-IsOff :
    (id j : String) (g : Option ℕ) (m : Router) → IsOff id m → IsOff id (set_gateway j g m).1
unfolding set_gateway
set_gateway-IsOff id j none m off = off
set_gateway-IsOff id j (some g) m off =
    if_cases P (m.closed || is_disabled j m.disabled) _ _ (λ e. off)
      (λ e. if_cases P (not (names_rule j m.policy)) _ _ (λ f. off) (λ f. off))
  where
    P : Option RouterError × Router → Type 0
    P r = IsOff id r.1

set_enabled-IsOff :
    (id j : String) (on : Bool) (m : Router)
    → (on ≡ true → j ≢ id)
    → IsOff id m
    → IsOff id (set_enabled j on m)
unfolding set_enabled
set_enabled-IsOff id j on m quiet off =
    if_cases (IsOff id) (str_eq j "direct" || m.closed) _ _ (λ e. off)
      (λ e.
        if_cases (IsOff id) on _ _ (λ f. put_off false (λ same. absurd (quiet f same)))
          (λ f. put_off true (λ same. refl)))
  where
    put_off :
        (b : Bool)
        → (j ≡ id → b ≡ true)
        → (m.closed || is_disabled id ((j, b) ∷ remove j m.disabled)) ≡ true
    put_off b h = rw (is_disabled_put j id b m.disabled) (elim (Bool-cases (str_eq j id)) [
      | inl e ↦ let on_here = h ((eq_iff j id).0 e) in ground arith
      | inr e ↦ rw e off
    ])

remove_gateway-IsOff :
    (id j : String) (g : Option ℕ) (m : Router) → IsOff id m → IsOff id (remove_gateway j g m)
unfolding remove_gateway
remove_gateway-IsOff id j g m off =
    if_cases (IsOff id) (str_eq j "direct") _ _ (λ e. off)
      (λ e. if_cases (IsOff id) (is_other_gateway g (find j m.profiles)) _ _ (λ f. off) (λ f. off))

close_router-IsOff : (id : String) (m : Router) → IsOff id m → IsOff id (close_router m)
unfolding close_router
close_router-IsOff id m off = if_cases (IsOff id) m.closed _ _ (λ e. off) (λ e. refl)

step-IsOff :
    (id : String) {m n : Router} (step : RouterStep m n) → IsQuiet id step → IsOff id m → IsOff id n
step-IsOff id {m} (sets j g) quiet off = set_gateway-IsOff id j g m off
step-IsOff id {m} (enables j) quiet off = set_enabled-IsOff id j true m (λ e. quiet) off
step-IsOff id {m} (disables j) quiet off =
    set_enabled-IsOff id j false m (λ e. absurd (let bad : false ≡ true = e in cc)) off
step-IsOff id {m} (removes j g) quiet off = remove_gateway-IsOff id j g m off
step-IsOff id {m} closes quiet off = close_router-IsOff id m off

reach-IsOff : (id : String) {m n : Router} → QuietReach id m n → IsOff id m → IsOff id n
reach-IsOff id still off = off
reach-IsOff id (and_quiet r step quiet) off = step-IsOff id step quiet (reach-IsOff id r off)

-- Switching off puts the router into such a state.
disable-IsOff : (id : String) (m : Router) → id ≢ "direct" → IsOff id (set_enabled id false m)
unfolding set_enabled
disable-IsOff id m ne =
    if_cases (IsOff id) (str_eq id "direct" || m.closed) _ _
      (λ e. elim (Bool-cases (str_eq id "direct")) [
        | inl f ↦ absurd (ne ((eq_iff id "direct").0 f))
        | inr f ↦ ground arith
      ])
      (λ e. rw (is_disabled_put id id true m.disabled, (eq_iff id id).1 refl) (ground arith))

ready-off :
    (closed : Bool) (stopped : List ℕ) (id : String) (o : Option Profile)
    → closed ≡ true
    → ready_handler closed stopped id o ≡ none
ready-off closed stopped id none e = refl
ready-off closed stopped id (some p) e = rw e refl

-- A profile other than "direct" that is switched off gets no flow, whatever gateways are set, removed
-- or detached and whatever other profiles are switched on or off, until it is itself switched on: each
-- flow that the policy or the DNS rule decides for it is blocked.
pub select_flow-off :
    (id : String) (m n : Router) (ip : ℕ) (uid : ℤ) (port : ℕ)
    → id ≢ "direct"
    → QuietReach id (set_enabled id false m) n
    → (select_flow n ip uid port).0.profile ≡ id
    → (select_flow n ip uid port).1 ≡ none
unfolding select_flow
select_flow-off id m n ip uid port ne r same =
    ready-off (n.closed || is_disabled (decide_flow n ip uid port).profile n.disabled) n.stopped
      (decide_flow n ip uid port).profile (find (decide_flow n ip uid port).profile n.profiles)
      (rw same (reach-IsOff id r (disable-IsOff id m ne)))

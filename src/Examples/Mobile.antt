-- ===== src/Examples/Mobile.antt =====
-- mobile/multiple.go at concrete inputs: one profile for everything.
use text.Mathlib.TextEquality.{eq_iff}
use quic_lab.Common.{String, ◌≡◌, refl, ◌≢◌, true, false, none, some, [], ◌∷◌}
use quic_lab.Net.{negsuc}
use quic_lab.Routing.{Rule, consider, choose, all}
use quic_lab.Mobile.Router.{
  find, remove, Router, is_disabled, set_gateway, set_enabled, decide_flow, select_flow,
}
use quic_lab.Mobile.Router.Steps.{sets}
use quic_lab.Mobile.Router.Blocking.{select_flow-off, still, and_quiet}

abbrev home_rule : Rule
home_rule = record { id = "home"; mode = all; uids = []; subnet_texts = []; prefixes = [] }

abbrev fresh_router : Router
fresh_router = record {
  policy = home_rule ∷ [];
  dns_profile = "home";
  profiles = ("direct", record { handler = 0; gateway = 9 }) ∷ [];
  disabled = [];
  closed = false;
  next_handler = 1;
  stopped = [];
}

-- With no gateway the flow is blocked; with one it is given the new handler.
blocked_first : (select_flow fresh_router 134744072 (negsuc 0) 443).1 ≡ none
unfolding select_flow decide_flow is_disabled find choose consider
blocked_first = refl

abbrev connected : Router
connected = (set_gateway "home" (some 4) fresh_router).1

given_handler : (select_flow connected 134744072 (negsuc 0) 443).1 ≡ some 1
unfolding select_flow decide_flow is_disabled find choose consider set_gateway remove
given_handler = refl

home_ne : ◌≢◌ {A = String} "home" "direct"
home_ne e = let bad : false ≡ true = (eq_iff "home" "direct").1 e in cc

select_flow-off_example :
    (select_flow
      (set_gateway "home" (some 5) (set_enabled "home" false connected)).1
      134744072
      (negsuc 0)
      443).1
    ≡ none
unfolding select_flow decide_flow choose consider set_gateway set_enabled is_disabled find
select_flow-off_example =
    select_flow-off "home" connected
      (set_gateway "home" (some 5) (set_enabled "home" false connected)).1 134744072 (negsuc 0) 443
      home_ne (and_quiet still (sets "home" (some 5)) tt) refl

-- ===== src/Mobile/Router.antt =====
-- mobile/multiple.go: MultiRouter. A Gateway and a tunHandler are objects: each is a number, and a
-- handler gets the next one when it is made. `stopped` lists the handlers whose context was cancelled.
pub mod Steps
pub mod Tables
pub mod Blocking
pub mod Living
pub mod Selecting
pub mod Keeping
use text.Mathlib.Text.{◌==◌ as str_eq}
use quic_lab.Common.{
  ℕ, ◌+◌, String, Bool, true, false, not, ◌||◌, Option, none, some, List, [], ◌∷◌, ◌++◌, ◌==◌,
  if◌then◌else◌,
}
use quic_lab.Net.{ℤ, parse_ip4, negsuc}
use quic_lab.Routing.{
  Rule, PolicyError, Parsed, parse, Decision, decide_as, choose, parsed, refused,
}

module _ {ℓ} {V : Type ℓ} where
  -- Maps with texts as keys; a write goes in front, and a look-up takes the first entry.
  unfoldable pub find : String → List (String × V) → Option V
  find id [] = none
  find id ((key, v) ∷ m) = let later = find id m in if str_eq key id then some v else later

  unfoldable pub remove : String → List (String × V) → List (String × V)
  remove id [] = []
  remove id ((key, v) ∷ m) =
      let later = remove id m in if str_eq key id then later else (key, v) ∷ later

pub record Profile : Type 0 where
  pub handler : ℕ
  pub gateway : ℕ

pub record Router : Type 0 where
  pub policy : List Rule
  pub dns_profile : String
  pub profiles : List (String × Profile)
  pub disabled : List (String × Bool)
  pub closed : Bool
  pub next_handler : ℕ
  pub stopped : List ℕ

abbrev pub names_rule : String → List Rule → Bool
names_rule id [] = false
names_rule id (r ∷ rs) = str_eq r.id id || names_rule id rs

pub data RouterError : Type 0 where
  bad_policy : PolicyError → RouterError
  no_dns_profile no_binder nil_gateway router_stopped unknown_profile : RouterError

pub data Made {ℓ} (A : Type ℓ) : Type ℓ where
  made : A → Made A
  not_made : RouterError → Made A

abbrev pub with_rules : Parsed (List Rule) → String → Bool → ℕ → Made Router
with_rules (refused e) dns has_binder gateway = not_made (bad_policy e)
with_rules (parsed rules) dns has_binder gateway =
    if not (names_rule dns rules)
    then not_made no_dns_profile
    else if not has_binder
    then not_made no_binder
    else made (record {
      policy = rules;
      dns_profile = dns;
      profiles = ("direct", record { handler = 0; gateway = gateway }) ∷ [];
      disabled = [];
      closed = false;
      next_handler = 1;
      stopped = [];
    })

-- NewMultiRouter, on decoded rules; `gateway` is the one that dials directly.
unfoldable pub new_router : List Rule → String → Bool → ℕ → Made Router
unfolding parse
new_router rules dns has_binder gateway = with_rules (parse rules) dns has_binder gateway

abbrev pub flag_of : Option Bool → Bool
flag_of none = false
flag_of (some b) = b

-- `m.disabled[id]`.
unfoldable pub is_disabled : String → List (String × Bool) → Bool
unfolding find
is_disabled id disabled = flag_of (find id disabled)

-- The handler of a profile that goes out of the table is stopped.
abbrev pub stop_old : Option Profile → List ℕ → List ℕ
stop_old none stopped = stopped
stop_old (some p) stopped = p.handler ∷ stopped

-- SetGateway; none is the nil gateway.
unfoldable pub set_gateway : String → Option ℕ → Router → Option RouterError × Router
unfolding is_disabled find remove
set_gateway id none m = (some nil_gateway, m)
set_gateway id (some g) m =
    if m.closed || is_disabled id m.disabled
    then (some router_stopped, m)
    else if not (names_rule id m.policy)
    then (some unknown_profile, m)
    else (
      none,
      record m {
        profiles = (id, record { handler = m.next_handler; gateway = g }) ∷ remove id m.profiles;
        next_handler = m.next_handler + 1;
        stopped = stop_old (find id m.profiles) m.stopped;
      },
    )

-- SetProfileEnabled.
unfoldable pub set_enabled : String → Bool → Router → Router
unfolding find remove
set_enabled id on m =
    if str_eq id "direct" || m.closed
    then m
    else if on
    then record m { disabled = (id, false) ∷ remove id m.disabled }
    else record m {
      disabled = (id, true) ∷ remove id m.disabled;
      profiles = remove id m.profiles;
      stopped = stop_old (find id m.profiles) m.stopped;
    }

abbrev pub is_other_gateway : Option ℕ → Option Profile → Bool
is_other_gateway none old = false
is_other_gateway (some g) none = true
is_other_gateway (some g) (some p) = not (p.gateway == g)

-- removeGateway; RemoveGateway passes no gateway, DetachGateway one that is not nil.
unfoldable pub remove_gateway : String → Option ℕ → Router → Router
unfolding find remove
remove_gateway id g m =
    if str_eq id "direct"
    then m
    else if is_other_gateway g (find id m.profiles)
    then m
    else record m {
      profiles = remove id m.profiles;
      stopped = stop_old (find id m.profiles) m.stopped;
    }

abbrev pub holds_number : ℕ → List ℕ → Bool
holds_number n [] = false
holds_number n (m ∷ ms) = m == n || holds_number n ms

-- The profile of a flow: the policy's, or the one for DNS.
unfoldable pub decide_flow : Router → ℕ → ℤ → ℕ → Decision
unfolding choose
decide_flow m ip uid port =
    if port == 53 then decide_as m.dns_profile "dns_profile" else choose m.policy ip uid

abbrev pub ready_handler : Bool → List ℕ → String → Option Profile → Option ℕ
ready_handler closed stopped id none = none
ready_handler closed stopped id (some p) =
    if closed || holds_number p.handler stopped || str_eq id "" then none else some p.handler

-- selectFlow behind the parsing of the destination and the question for the owner: the decision,
-- and the handler that the flow is given to. No handler means that the flow is blocked.
unfoldable pub select_flow : Router → ℕ → ℤ → ℕ → Decision × Option ℕ
unfolding decide_flow is_disabled find
select_flow m ip uid port =
    let d = decide_flow m ip uid port in
    (
      d,
      ready_handler (m.closed || is_disabled d.profile m.disabled) m.stopped d.profile
          (find d.profile m.profiles),
    )

-- The owner is not known where nobody can be asked.
abbrev pub uid_of : Option ℤ → ℤ
uid_of none = negsuc 0
uid_of (some uid) = uid

-- selectFlow on the text of the destination.
unfoldable pub select_text : Router → List ℕ → Option ℤ → ℕ → Option ℕ
unfolding select_flow parse_ip4
select_text m dst owner port = elim (parse_ip4 dst) [
  | none ↦ none
  | some ip ↦ (select_flow m ip (uid_of owner) port).1
]

abbrev pub handlers_of : List (String × Profile) → List ℕ
handlers_of [] = []
handlers_of ((id, p) ∷ m) = p.handler ∷ handlers_of m

-- Close.
unfoldable pub close_router : Router → Router
close_router m =
    if m.closed
    then m
    else record m { closed = true; profiles = []; stopped = handlers_of m.profiles ++ m.stopped }

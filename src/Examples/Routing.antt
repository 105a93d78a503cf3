-- ===== src/Examples/Routing.antt =====
-- internal/routing/policy.go at concrete inputs.
use quic_lab.Routing.{Rule, parse, choose, apps, subnets, parsed}
use quic_lab.Routing.Parsing.{OnParsed, IsAdmitted, parse-IsAdmitted, choose-ne-direct}
use quic_lab.Routing.Choosing.{Chosen, choose-Chosen}
use quic_lab.Common.{◌≤◌, ◌≡◌, refl, ◌≢◌, inl, inr, List, [], ◌∷◌, length}
use quic_lab.Net.{Prefix, parse_prefix, pos, negsuc}

abbrev work_apps : Rule
work_apps = record {
  id = "work";
  mode = apps;
  uids = pos 10001 ∷ [];
  subnet_texts = [];
  prefixes = [];
}

abbrev home_net : Rule
home_net = record {
  id = "home";
  mode = subnets;
  uids = [];
  subnet_texts = (b'1' ∷ b'0' ∷ b'.' ∷ b'1' ∷ b'.' ∷ b'2' ∷ b'.' ∷ b'3' ∷ b'/' ∷ b'8' ∷ []) ∷ [];
  prefixes = [];
}

abbrev ten_net : Prefix
ten_net = record { addr = 0x0a000000; bits = 8 }

abbrev two_rules : List Rule
two_rules = record home_net { prefixes = ten_net ∷ [] } ∷ work_apps ∷ []

-- 10.1.2.3/8 is stored as 10.0.0.0/8.
parsed_rules : parse (home_net ∷ work_apps ∷ []) ≡ parsed two_rules
unfolding parse parse_prefix
parsed_rules = refl

chosen_by_subnet :
    choose two_rules 0x0a010203 (pos 5) ≡ record { profile = "home"; reason = "subnet" }
unfolding choose
chosen_by_subnet = refl

choose-ne-direct_example : (choose two_rules 0x08080808 (negsuc 0)).profile ≢ "direct"
choose-ne-direct_example =
    choose-ne-direct (home_net ∷ work_apps ∷ []) two_rules 0x08080808 0 parsed_rules (inr (inl tt))

choose-Chosen_example :
    Chosen 0x08080808 (pos 10001) two_rules (choose two_rules 0x08080808 (pos 10001))
choose-Chosen_example = choose-Chosen two_rules 0x08080808 (pos 10001)

parse-IsAdmitted_example :
    OnParsed
      (λ rs. (length rs ≡ 2) × (1 ≤ length rs) × (length rs ≤ 32) × IsAdmitted [] rs)
      (parse (home_net ∷ work_apps ∷ []))
parse-IsAdmitted_example = parse-IsAdmitted (home_net ∷ work_apps ∷ [])

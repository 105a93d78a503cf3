-- ===== src/Mobile/Router/Steps.antt =====
-- mobile/multiple.go: the calls of the router, in any order.
use quic_lab.Common.{ℕ, String, true, false, Option}
use quic_lab.Mobile.Router.{Router, set_gateway, set_enabled, remove_gateway, close_router}

pub data RouterStep (m : Router) : Router → Type 0 where
  sets : (id : String) (g : Option ℕ) → RouterStep m (set_gateway id g m).1
  enables : (id : String) → RouterStep m (set_enabled id true m)
  disables : (id : String) → RouterStep m (set_enabled id false m)
  removes : (id : String) (g : Option ℕ) → RouterStep m (remove_gateway id g m)
  closes : RouterStep m (close_router m)

pub data RouterReach (m : Router) : Router → Type 0 where
  unmoved : RouterReach m m
  moved : {n o : Router} → RouterReach m n → RouterStep n o → RouterReach m o

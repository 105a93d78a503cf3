-- ===== src/Mobile/Router/Selecting.antt =====
-- mobile/multiple.go: which handler a flow is given in any state of the router.
use text.Mathlib.Text.{◌==◌ as str_eq}
use quic_lab.Common.{ℕ, Option, none, some}
use quic_lab.Mobile.Router.{Profile, Router, Made, made, not_made}
use quic_lab.Mobile.Router.Living.{IsRouter}

abbrev OnMade : Made Router → Type 0
OnMade (not_made e) = Unit {0}
OnMade (made m) = IsRouter m

abbrev pub handler_of : Option Profile → Option ℕ
handler_of none = none
handler_of (some p) = some p.handler

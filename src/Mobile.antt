-- ===== src/Mobile.antt =====
-- mobile: the router of the phone's tunnel, which gives every flow to a VPN profile.
pub mod Router

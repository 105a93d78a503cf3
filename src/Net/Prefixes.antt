-- ===== src/Net/Prefixes.antt =====
-- Membership in a list of IPv4 prefixes: the loops over netip.Prefix.Contains.
use quic_lab.Common.{
  ℕ, ◌-◌, ◌/◌, ◌^◌, ◌≡◌, refl, ◌⊎◌, inl, inr, Bool, true, false, ◌||◌, List, [], ◌∷◌, ==_iff,
  Bool-cases,
}
use quic_lab.Net.{Prefix, block, contains}

unfoldable pub any_contains : List Prefix → ℕ → Bool
any_contains [] a = false
any_contains (p ∷ ps) a = contains p a || any_contains ps a

-- The address shares the prefix's leading bits, for one of the prefixes.
abbrev pub Within : List Prefix → ℕ → Type 0
Within [] a = ⊥
Within (p ∷ ps) a = (a / 2 ^ (32 - p.bits) ≡ p.addr / 2 ^ (32 - p.bits)) ⊎ Within ps a

pub any_contains→Within : (ps : List Prefix) (a : ℕ) → any_contains ps a ≡ true → Within ps a
unfolding any_contains
any_contains→Within [] a h = cc
any_contains→Within (p ∷ ps) a h = elim (Bool-cases (contains p a)) [
  | inl e ↦ inl ((==_iff (a / block p) (p.addr / block p)).0 e)
  | inr e ↦ inr (any_contains→Within ps a (rw e at h))
]

pub Within→any_contains : (ps : List Prefix) (a : ℕ) → Within ps a → any_contains ps a ≡ true
unfolding any_contains
Within→any_contains [] a h = absurd h
Within→any_contains (p ∷ ps) a (inl e) = rw ((==_iff (a / block p) (p.addr / block p)).1 e) refl
Within→any_contains (p ∷ ps) a (inr h) = rw (Within→any_contains ps a h) (or_true (contains p a))
  where
    or_true : (b : Bool) → (b || true) ≡ true
    or_true true = refl
    or_true false = refl

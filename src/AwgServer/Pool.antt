-- ===== src/AwgServer/Pool.antt =====
-- The search for a free address in the pool (provisionAWG, internal/admin/protocols.go), and what
-- Validate of internal/awgserver/config.go promises of the pool.
use native.Mathlib.Nat.{one-le-pow, le-div_iff_mul-le, div-lt_iff_lt-mul, suc-mul}
use mathlib.Core.Path.{subst}
use quic_lab.Common.{
  ℕ, zero, suc, ◌+◌, ◌-◌, ◌*◌, ◌/◌, ◌≤◌, ◌<◌, ◌≡◌, sym, ◌∙◌, inl, inr, true, false, Option, none,
  some, List, arith, ◌==◌, if◌then◌else◌, ==_iff, Bool-cases,
}
use quic_lab.Net.{Prefix, block, masked, contains}
use quic_lab.AwgServer.{contains_word}

-- The loop from the first host address on; it ends before the last address of the prefix.
unfoldable pub free_address : ℕ → Prefix → List ℕ → ℕ → Option ℕ
free_address zero p used ip = none
free_address (suc fuel) p used ip =
    let later = free_address fuel p used (ip + 1) in
    if contains p (ip + 1) then (if contains_word ip used then later else some ip) else none

abbrev pub first_host : Prefix → ℕ
first_host p = (masked p).addr + 1

abbrev pub broadcast : Prefix → ℕ
broadcast p = (masked p).addr + (block p - 1)

block_pos : (p : Prefix) → 0 < block p
block_pos p = omega (arith, one-le-pow (32 - p.bits) 2 (omega arith))

pub contains→between :
    (p : Prefix) (a : ℕ) → contains p a ≡ true → ((masked p).addr ≤ a) × (a ≤ broadcast p)
contains→between p a h =
    let same_block : a / block p ≡ p.addr / block p = (==_iff _ _).0 h in
    let low =
      (le-div_iff_mul-le {x = p.addr / block p} {y = a} (block_pos p)).0
        (omega (arith, same_block)) in
    let high : a < suc (p.addr / block p) * block p =
      (div-lt_iff_lt-mul (block_pos p)).0 (omega (arith, same_block)) in
    let size = suc-mul (p.addr / block p) (block p) in (low, omega (arith, block_pos p, size))

pub between→contains :
    (p : Prefix) (a : ℕ) → (masked p).addr ≤ a → a ≤ broadcast p → contains p a ≡ true
between→contains p a low high =
    let size = suc-mul (p.addr / block p) (block p) in
    let above = (le-div_iff_mul-le {x = p.addr / block p} {y = a} (block_pos p)).1 low in
    let below : a / block p < suc (p.addr / block p) =
      (div-lt_iff_lt-mul (block_pos p)).1 (omega (arith, block_pos p, size)) in
    (==_iff _ _).1 (omega arith)

-- What a search returns that begins at `ip`: a free host address, or none because there is none.
abbrev pub FoundFrom : Prefix → List ℕ → ℕ → Option ℕ → Type 0
FoundFrom p used ip none = (a : ℕ) → ip ≤ a → a < broadcast p → contains_word a used ≡ true
FoundFrom p used ip (some a) = (ip ≤ a) × (a < broadcast p) × (contains_word a used ≡ false)

skip_taken :
    (p : Prefix) (used : List ℕ) (ip : ℕ) (r : Option ℕ)
    → contains_word ip used ≡ true
    → FoundFrom p used (ip + 1) r
    → FoundFrom p used ip r
skip_taken p used ip (some a) taken (low, high, unused) = (omega arith, high, unused)
skip_taken p used ip none taken all_taken = λ a. λ low. λ high. elim (Bool-cases (a == ip)) [
  | inl e ↦ subst (λ x. contains_word x used ≡ true) (sym ((==_iff a ip).0 e)) taken
  | inr e ↦ all_taken a (ground arith) high
]

free_from :
    (fuel : ℕ) (p : Prefix) (used : List ℕ) (ip : ℕ)
    → first_host p ≤ ip
    → broadcast p ≤ ip + fuel
    → FoundFrom p used ip (free_address fuel p used ip)
unfolding free_address
free_from zero p used ip low enough = λ a. λ h. λ k. absurd (omega arith)
free_from (suc fuel) p used ip low enough = elim (Bool-cases (contains p (ip + 1))) [
  | inr e ↦ rw e (λ a. λ h. λ k.
      let inside = between→contains p (ip + 1) (omega arith) (omega arith) in
      absurd (let bad : false ≡ true = sym e ∙ inside in cc))
  | inl e ↦ elim (Bool-cases (contains_word ip used)) [
    | inr free ↦
        let (l, h) = contains→between p (ip + 1) e in rw (e, free) (omega arith, omega arith, free)
    | inl taken ↦
        rw (e, taken)
          (skip_taken p used ip _ taken
            (free_from fuel p used (ip + 1) (omega arith) (omega arith)))
  ]
]

-- The search through a pool that starts at its first host address, with one round for each address
-- of the prefix, returns a host address that is not in use, neither the network's own nor the
-- broadcast address; it returns none only if every host address is in use.
pub free_address_lem :
    (p : Prefix) (used : List ℕ)
    → FoundFrom p used (first_host p) (free_address (block p) p used (first_host p))
free_address_lem p used = free_from (block p) p used (first_host p) (omega arith) (omega arith)

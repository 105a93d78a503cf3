-- ===== src/Admin/Provisioning.antt =====
-- provisionAWG (internal/admin/protocols.go): the address that an account is given.
use mathlib.Core.Path.{subst}
use quic_lab.Common.{
  ℕ, ◌≤◌, ◌<◌, String, ◌≡◌, refl, ◌≢◌, ◌⊎◌, inl, inr, false, not, Option, none, some, List, ◌∷◌,
  arith, if◌then◌else◌, if_cases, Result, message, err, ok,
}
use quic_lab.Net.{Prefix, block, parse_prefix}
use quic_lab.AwgServer.{Config, Identity, Peer, awg, contains_word}
use quic_lab.AwgServer.Pool.{free_address, first_host, broadcast, FoundFrom, free_address_lem}
use quic_lab.Admin.{
  User, Store, allows, protocol_error, addresses, Keys, with_peer, search, keep_or_search, new_peer,
  provision_awg,
}

-- A host address of the pool that is not the server's own.
abbrev pub IsHost : Prefix → ℕ → Type 0
IsHost p a = (first_host p ≤ a) × (a < broadcast p) × (a ≢ p.addr)

abbrev pub HasPool : Prefix → Option Config → Type 0
HasPool p none = Unit {0}
HasPool p (some c) = parse_prefix c.address ≡ some p

-- The account `new` got: the same person, and the old address or one that no account has.
abbrev pub Provisioned : Prefix → List (ℕ × User) → User → User → Type 0
Provisioned p users old new =
    (new.id ≡ old.id)
    × (new.name ≡ old.name)
    × (new.disabled ≡ old.disabled)
    × (new.protocols ≡ old.protocols)
    × ((new.peer ≡ old.peer)
        ⊎ ((q : Peer) × (new.peer ≡ some q)
            × IsHost p q.address
            × (contains_word q.address (addresses users) ≡ false)))

abbrev WhenOk : (User → Type 0) → Result User → Type 0
WhenOk P (err e) = Unit {0}
WhenOk P (ok u) = P u

used_split :
    (a b : ℕ) (l : List ℕ) → contains_word a (b ∷ l) ≡ false → (a ≢ b) × (contains_word a l ≡ false)
used_split a b l h = ground arith

search-Provisioned :
    (p : Prefix) (users : List (ℕ × User)) (u : User) (keys : Keys)
    → WhenOk (Provisioned p users u) (search u keys (addresses users) (some p))
search-Provisioned p users u keys =
    go (free_address (block p) p (p.addr ∷ addresses users) (first_host p)) keys
      (free_address_lem p (p.addr ∷ addresses users))
  where
    go :
        (r : Option ℕ) (keys : Keys)
        → FoundFrom p (p.addr ∷ addresses users) (first_host p) r
        → WhenOk (Provisioned p users u) (with_peer u keys r)
    go none keys h = tt
    go (some a) none h = tt
    go (some a) (some (private, public, psk)) (low, high, unused) =
        let (other, free) = used_split a p.addr (addresses users) unused in
        (refl, refl, refl, refl, inr (_, refl, (low, high, other), free))

keep_or_search-Provisioned :
    (p : Prefix) (s : Store) (u : User) (keys : Keys) (c : Config) (q : Option Peer)
    → HasPool p (some c)
    → WhenOk (Provisioned p s.users u) (keep_or_search s keys u c q)
keep_or_search-Provisioned p s u keys c (some q) h = (refl, refl, refl, refl, inl refl)
keep_or_search-Provisioned p s u keys c none h = rw h (search-Provisioned p s.users u keys)

new_peer-Provisioned :
    (p : Prefix) (s : Store) (u : User) (keys : Keys) (c : Option Config) (i : Option Identity)
    → HasPool p c
    → WhenOk (Provisioned p s.users u) (new_peer s keys u c i)
new_peer-Provisioned p s u keys none i h = tt
new_peer-Provisioned p s u keys (some c) none h = tt
new_peer-Provisioned p s u keys (some c) (some i) h =
    keep_or_search-Provisioned p s u keys c u.peer h

pub provision_awg-Provisioned :
    (p : Prefix) (s : Store) (keys : Keys) (u new : User)
    → HasPool p s.awg_config
    → provision_awg s keys u ≡ ok new
    → Provisioned p s.users u new
unfolding provision_awg
provision_awg-Provisioned p s keys u new pool h =
    subst (WhenOk (Provisioned p s.users u)) h (go (protocol_error u.protocols))
  where
    go :
        (e : Option String)
        → WhenOk (Provisioned p s.users u) (elim e [
          | some e ↦ err (message e)
          | none ↦ if not (allows u awg) then ok u else new_peer s keys u s.awg_config s.identity
        ])
    go (some e) = tt
    go none =
        if_cases (WhenOk (Provisioned p s.users u)) (not (allows u awg)) (ok u)
          (new_peer s keys u s.awg_config s.identity) (λ e. (refl, refl, refl, refl, inl refl))
          (λ e. new_peer-Provisioned p s u keys s.awg_config s.identity pool)

-- Provisioning changes no field but the tunnel address and its keys.
abbrev pub SameUser : User → User → Type 0
SameUser old new =
    (new.id ≡ old.id) × (new.disabled ≡ old.disabled) × (new.protocols ≡ old.protocols)

search-SameUser :
    (u : User) (keys : Keys) (used : List ℕ) (p : Option Prefix)
    → WhenOk (SameUser u) (search u keys used p)
search-SameUser u keys used none = tt
search-SameUser u keys used (some p) =
    go keys (free_address (block p) p (p.addr ∷ used) (first_host p))
  where
    go : (keys : Keys) (r : Option ℕ) → WhenOk (SameUser u) (with_peer u keys r)
    go keys none = tt
    go none (some a) = tt
    go (some (private, public, psk)) (some a) = (refl, refl, refl)

new_peer-SameUser :
    (s : Store) (u : User) (keys : Keys) (c : Option Config) (i : Option Identity)
    → WhenOk (SameUser u) (new_peer s keys u c i)
new_peer-SameUser s u keys none i = tt
new_peer-SameUser s u keys (some c) none = tt
new_peer-SameUser s u keys (some c) (some i) = go u.peer
  where
    go : (q : Option Peer) → WhenOk (SameUser u) (keep_or_search s keys u c q)
    go (some q) = (refl, refl, refl)
    go none = search-SameUser u keys (addresses s.users) (parse_prefix c.address)

pub provision_awg-SameUser :
    (s : Store) (keys : Keys) (u new : User) → provision_awg s keys u ≡ ok new → SameUser u new
unfolding provision_awg
provision_awg-SameUser s keys u new h =
    subst (WhenOk (SameUser u)) h (go (protocol_error u.protocols))
  where
    go :
        (e : Option String)
        → WhenOk (SameUser u) (elim e [
          | some e ↦ err (message e)
          | none ↦ if not (allows u awg) then ok u else new_peer s keys u s.awg_config s.identity
        ])
    go (some e) = tt
    go none =
        if_cases (WhenOk (SameUser u)) (not (allows u awg)) (ok u)
          (new_peer s keys u s.awg_config s.identity) (λ e. (refl, refl, refl))
          (λ e. new_peer-SameUser s u keys s.awg_config s.identity)

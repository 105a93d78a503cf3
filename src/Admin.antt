-- ===== src/Admin.antt =====
-- internal/admin: the accounts, their live sessions and their traffic.
-- The mutex makes each operation one step on `Store`. A time is its nanoseconds, 0 the zero time. A
-- map from user IDs or tokens is an association list; an ID or token is the number that stands for
-- the 24 random bytes. `disk` is the content of identities.json: a save that succeeds replaces it as
-- a whole (a rename), one that fails leaves it. `closed` lists the connections whose closer was
-- called. The texts `certificate` and `key` are bytes.
pub mod Accounts
pub mod Sessions
pub mod Traffic
pub mod Steps
pub mod Provisioning
pub mod Uniqueness
pub mod UniquenessSteps
pub mod UniquenessReach
pub mod Outcomes
pub mod Durability
pub mod Revocation
pub mod RevocationSteps
pub mod RevocationSessions
pub mod RevocationReach
pub mod Admission
pub mod Listing
pub mod Web
pub mod Live
use quic_lab.Common.{
  ℕ, String, Bool, true, false, not, ◌||◌, Option, none, some, List, [], ◌∷◌, ◌++◌, ltb, ◌==◌,
  if◌then◌else◌, length, GoError, Result, foreign, message, err, ok,
}
use quic_lab.Common.Bytes.{same, member}
use quic_lab.Net.{Prefix, block, parse_prefix}
use quic_lab.AwgServer.{Config, Identity, Peer, validate, quic, https, awg, enabled}
use quic_lab.AwgServer.Pool.{free_address, first_host}

pub record User : Type 0 where
  pub id : ℕ
  pub name : List ℕ
  pub disabled : Bool
  pub protocols : Option (List (List ℕ))
  pub peer : Option Peer  -- the field AWG
  pub last_connected : ℕ
  pub last_transport : List ℕ
  pub last_source : List ℕ
  pub created : ℕ
  pub expires : ℕ
  pub certificate : List ℕ
  pub key : List ℕ

pub record Disk : Type 0 where
  pub identity : Option Identity
  pub users : List (ℕ × User)

pub record Store : Type 0 where
  pub awg_config : Option Config
  pub identity : Option Identity  -- state.AWG
  pub users : List (ℕ × User)
  pub ca_expires : ℕ
  pub ca_text : List ℕ
  pub active : List (ℕ × List (ℕ × ℕ))  -- user, token, connection
  pub session_protocols : List (ℕ × List ℕ)
  pub disk : Disk
  pub closed : List ℕ

-- Store.save; `saved` is whether every file operation succeeds.
abbrev pub save : Bool → Store → Store
save true s = record s { disk = record { identity = s.identity; users = s.users } }
save false s = s

abbrev pub allows : User → List ℕ → Bool
allows u protocol = enabled u.protocols protocol

abbrev pub known : List ℕ → Bool
known p = same p quic || same p https || same p awg

abbrev pub distinct_known : List (List ℕ) → List (List ℕ) → Bool
distinct_known seen [] = true
distinct_known seen (p ∷ ps) =
    let others = distinct_known (p ∷ seen) ps in
    if member p seen || not (known p) then false else others

-- The test at the head of provisionAWG.
unfoldable pub protocol_error : Option (List (List ℕ)) → Option String
unfolding same member
protocol_error none = none
protocol_error (some ps) =
    if length ps == 0 || ltb 3 (length ps)
    then some "choose at least one protocol"
    else (if distinct_known [] ps then none else some "invalid protocol selection")

abbrev pub address_of : Option Peer → List ℕ
address_of none = []
address_of (some p) = p.address ∷ []

abbrev pub addresses : List (ℕ × User) → List ℕ
addresses [] = []
addresses ((id, u) ∷ m) = address_of u.peer ++ addresses m

-- The keys of NewPeer: private, public, shared; none when the random source fails.
abbrev pub Keys : Type 0
Keys = Option (List ℕ × List ℕ × List ℕ)

abbrev pub with_peer : User → Keys → Option ℕ → Result User
with_peer u keys none = err (message "AWG address pool exhausted")
with_peer u none (some ip) = err foreign
with_peer u (some (private, public, psk)) (some ip) = ok (record u {
  peer = some (record { private_key = private; public_key = public; psk = psk; address = ip });
})

-- The prefix of a configuration that Validate accepted.
abbrev pub search : User → Keys → List ℕ → Option Prefix → Result User
search u keys used none = err (message "AWG address pool exhausted")
search u keys used (some p) =
    with_peer u keys (free_address (block p) p (p.addr ∷ used) (first_host p))

abbrev pub keep_or_search : Store → Keys → User → Config → Option Peer → Result User
keep_or_search s keys u c (some p) = ok u
keep_or_search s keys u c none = search u keys (addresses s.users) (parse_prefix c.address)

abbrev pub new_peer : Store → Keys → User → Option Config → Option Identity → Result User
new_peer s keys u (some c) (some i) = keep_or_search s keys u c u.peer
new_peer s keys u c i = err (message "AWG server is not configured")

unfoldable pub provision_awg : Store → Keys → User → Result User
unfolding protocol_error enabled free_address parse_prefix
provision_awg s keys u = elim (protocol_error u.protocols) [
  | some e ↦ err (message e)
  | none ↦ if not (allows u awg) then ok u else new_peer s keys u s.awg_config s.identity
]

-- ConfigureAWG; `made` is the answer of NewIdentity.
abbrev pub set_identity : Result Identity → Bool → Store → Option GoError × Store
set_identity (err e) saved s = (some e, s)
set_identity (ok i) true s = (none, save true (record s { identity = some i }))
set_identity (ok i) false s = (some foreign, s)

unfoldable pub configure_awg :
    Option Config → Result Identity → Bool → Store → Option GoError × Store
unfolding validate
configure_awg none made saved s = (none, s)
configure_awg (some c) made saved s = elim (validate c) [
  | some e ↦ (some (message e), s)
  | none ↦ elim s.identity [
    | some i ↦ (none, record s { awg_config = some c })
    | none ↦ set_identity made saved (record s { awg_config = some c })
  ]
]

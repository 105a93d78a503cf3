-- ===== src/Examples/Accounts.antt =====
-- internal/admin at concrete inputs: a pool of 29 bits, an account with a tunnel, reports of traffic.
use quic_lab.Common.{
  ℕ, ◌*◌, ◌≡◌, refl, ◌↔◌, true, false, none, some, List, [], ◌∷◌, map, arith, All, ok,
}
use quic_lab.Common.Maps.{lookup, insert}
use quic_lab.Net.{Prefix, block, parse_prefix, pos, negsuc}
use quic_lab.AwgServer.{
  Config, Identity, worker_interface, validate, quic, awg, enabled, draw_headers,
}
use quic_lab.AwgServer.Pool.{free_address, first_host, FoundFrom, free_address_lem}
use quic_lab.Admin.{User, Store, address_of, provision_awg}
use quic_lab.Admin.Accounts.{day, name_taken, Issuing, create, sessions_of, set_protocols}
use quic_lab.Admin.Sessions.{ConnectionState, Crypto, allowed, register_protocol}
use quic_lab.Admin.Steps.{Reach, creates, registers, begins, goes_on}
use quic_lab.Admin.Uniqueness.{IsStore}
use quic_lab.Admin.UniquenessReach.{Reach-IsStore}
use quic_lab.Admin.Durability.{IsDurable, Reach-IsDurable}
use quic_lab.Admin.Revocation.{IsRevoked}
use quic_lab.Admin.RevocationReach.{Reach-IsRevoked}
use quic_lab.Admin.Listing.{
  list_users, HasNoSecret, InOrderFrom, listed, stored_times, list_users_lem,
}
use quic_lab.Admin.Admission.{MayEnter, allowed_lem}
use quic_lab.Admin.Traffic.{snapshot, empty_buckets, Report, add_all}
use quic_lab.Admin.Traffic.Sums.{snapshot-add_all}

-- 10.0.0.1/29
abbrev small_pool : Prefix
small_pool = record { addr = 167772161; bits = 29 }

abbrev small_address : List ℕ
small_address = b'1' ∷ b'0' ∷ b'.' ∷ b'0' ∷ b'.' ∷ b'0' ∷ b'.' ∷ b'1' ∷ b'/' ∷ b'2' ∷ b'9' ∷ []

abbrev pub worker : Config
worker = record {
  health_seconds = pos 0;
  offline_seconds = pos 0;
  endpoint = b'h' ∷ b':' ∷ b'1' ∷ [];
  address = small_address;
  dns = b'1' ∷ b'.' ∷ b'1' ∷ b'.' ∷ b'1' ∷ b'.' ∷ b'1' ∷ [];
  allowed_ips = (b'0' ∷ b'.' ∷ b'0' ∷ b'.' ∷ b'0' ∷ b'.' ∷ b'0' ∷ b'/' ∷ b'0' ∷ []) ∷ [];
  interface = worker_interface;
  mtu = pos 1280;
}

accepts_worker : validate worker ≡ none
unfolding validate
accepts_worker = refl

abbrev worker_identity : Identity
worker_identity = record { private_key = 1 ∷ []; public_key = 2 ∷ []; headers = 5 ∷ 6 ∷ 7 ∷ 8 ∷ [] }

draws_four : draw_headers 4 [] (3 ∷ 5 ∷ 5 ∷ 6 ∷ 7 ∷ 8 ∷ 9 ∷ []) ≡ some (5 ∷ 6 ∷ 7 ∷ 8 ∷ [])
unfolding draw_headers
draws_four = refl

abbrev empty_store : Store
empty_store = record {
  awg_config = some worker;
  identity = some worker_identity;
  users = [];
  ca_expires = 100 * day;
  ca_text = [];
  active = [];
  session_protocols = [];
  disk = record { identity = some worker_identity; users = [] };
  closed = [];
}

abbrev plain_crypto : Crypto
plain_crypto = record { decode = λ b. some b; digest = λ b. b }

abbrev issuing : Issuing
issuing = record {
  key_made = true;
  serial_made = true;
  now = day;
  id = 17;
  keys = some (1 ∷ [], 2 ∷ [], 3 ∷ []);
  certify = λ id. λ expires. some (id ∷ []);
  key_text = some (9 ∷ []);
  saved = true;
}

abbrev anna : List ℕ
anna = b'a' ∷ b'n' ∷ b'n' ∷ b'a' ∷ []

abbrev with_anna : Store
with_anna = (create issuing anna (some (awg ∷ quic ∷ [])) empty_store).1

anna_peer : User → List ℕ
anna_peer u = address_of u.peer

gives_address : map (λ e. anna_peer e.1) with_anna.users ≡ (167772162 ∷ []) ∷ []
unfolding create provision_awg enabled parse_prefix free_address name_taken insert anna_peer
gives_address = refl

abbrev client : ConnectionState
client = record { has_chain = true; certificates = record { common_name = 17; raw = 17 ∷ [] } ∷ [] }

abbrev connected_store : Store
connected_store = (register_protocol plain_crypto (2 * day) client quic 5 1 with_anna).1

disabled_store : Store
disabled_store = (set_protocols true none 17 (awg ∷ []) false connected_store).1

-- The account loses QUIC, so its QUIC connection is closed.
closes_connection : disabled_store.closed ≡ 1 ∷ []
unfolding disabled_store register_protocol set_protocols create
closes_connection = refl

reaches : Reach plain_crypto empty_store connected_store
unfolding create lookup
reaches =
    goes_on (goes_on begins (creates issuing anna (some (awg ∷ quic ∷ [])) nothing nothing))
      (registers (2 * day) client quic 5 1 (λ id. fresh id))
  where
    nothing : {A : Type 0} → lookup {V = A} 17 [] ≡ none
    nothing = refl

    fresh : (id : ℕ) → lookup 5 (sessions_of id with_anna) ≡ none
    fresh id = refl

empty-IsStore : IsStore small_pool empty_store
unfolding parse_prefix lookup
empty-IsStore =
    (refl, (omega arith, λ id. λ u. λ h. absurd cc, λ i. λ j. λ u. λ v. λ h. λ k. λ ne. absurd cc))

Reach-IsStore_example : IsStore small_pool connected_store
Reach-IsStore_example = Reach-IsStore small_pool empty-IsStore reaches

Reach-IsDurable_example : IsDurable connected_store
Reach-IsDurable_example = Reach-IsDurable (refl, λ k. refl) reaches

empty-IsRevoked : IsRevoked empty_store
unfolding lookup
empty-IsRevoked = (λ id. λ u. λ h. absurd cc, λ id. λ token. λ connection. λ h. absurd cc)

Reach-IsRevoked_example : IsRevoked connected_store
Reach-IsRevoked_example = Reach-IsRevoked empty-IsRevoked reaches

free_address_lem_example :
    FoundFrom small_pool (167772161 ∷ 167772162 ∷ []) (first_host small_pool) (
      free_address
        (block small_pool)
        small_pool
        (167772161 ∷ 167772162 ∷ [])
        (first_host small_pool))
free_address_lem_example = free_address_lem small_pool (167772161 ∷ 167772162 ∷ [])

abbrev reports : List Report
reports =
    record { second = 100; sent = pos 7; received = negsuc 3 }
    ∷ record { second = 702; sent = pos 20; received = pos 5 }
    ∷ record { second = 705; sent = pos 30; received = pos 6 }
    ∷ []

snapshot-add_all_example :
    ((snapshot 707 (add_all reports empty_buckets)).tx ≡ 50)
    × ((snapshot 707 (add_all reports empty_buckets)).rx ≡ 11)
    × ((snapshot 707 (add_all reports empty_buckets)).rate_tx ≡ 6)
    × ((snapshot 707 (add_all reports empty_buckets)).rate_rx ≡ 1)
snapshot-add_all_example =
    snapshot-add_all 707 reports (omega arith, (omega arith, (omega arith, omega arith)))

allowed_lem_example :
    (allowed plain_crypto day client with_anna ≡ ok 17)
    ↔ MayEnter plain_crypto day client with_anna 17
allowed_lem_example = allowed_lem plain_crypto day 17 client with_anna

lets_anna_in : allowed plain_crypto day client with_anna ≡ ok 17
unfolding allowed create provision_awg enabled parse_prefix free_address name_taken insert
lets_anna_in = refl

list_users_lem_example :
    All HasNoSecret (list_users with_anna.users)
    × InOrderFrom 0 (list_users with_anna.users)
    × ((id : ℕ) → listed id (list_users with_anna.users) ≡ stored_times id with_anna.users)
list_users_lem_example = list_users_lem with_anna.users

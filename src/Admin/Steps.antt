-- ===== src/Admin/Steps.antt =====
-- The store as a state machine: any sequence of the operations of internal/admin/store.go and
-- protocols.go, each with any answers of the outside. A new ID or token is one that is not in use.
use quic_lab.Common.{ℕ, ◌≡◌, ◌≢◌, Bool, Option, none, List}
use quic_lab.Common.Maps.{lookup}
use quic_lab.Admin.{Store, Keys}
use quic_lab.Admin.Accounts.{Issuing, create, rename, sessions_of, delete_user, set_protocols}
use quic_lab.Admin.Sessions.{ConnectionState, Crypto, register_protocol, release_protocol}

-- No session of any user has the token.
abbrev pub IsNewToken : ℕ → Store → Type 0
IsNewToken token s = (id : ℕ) → lookup token (sessions_of id s) ≡ none

-- The token is no other user's: a function that takes a session out has the pair it was made for.
abbrev pub IsOwnToken : ℕ → ℕ → Store → Type 0
IsOwnToken id token s = (other : ℕ) → other ≢ id → lookup token (sessions_of other s) ≡ none

pub data StoreStep (c : Crypto) (s : Store) : Store → Type 0 where
  creates :
      (out : Issuing) (name : List ℕ) (protocols : Option (List (List ℕ)))
      → lookup out.id s.users ≡ none
      → lookup out.id s.active ≡ none
      → StoreStep c s (create out name protocols s).1
  renames : (saved : Bool) (id : ℕ) (name : List ℕ) → StoreStep c s (rename saved id name s).1
  deletes : (saved : Bool) (id : ℕ) → StoreStep c s (delete_user saved id s).1
  changes :
      (saved : Bool) (keys : Keys) (id : ℕ) (protocols : List (List ℕ)) (disabled : Bool)
      → StoreStep c s (set_protocols saved keys id protocols disabled s).1
  registers :
      (now : ℕ) (cs : ConnectionState) (protocol : List ℕ) (token connection : ℕ)
      → IsNewToken token s
      → StoreStep c s (register_protocol c now cs protocol token connection s).1
  releases : (id token : ℕ) → IsOwnToken id token s → StoreStep c s (release_protocol id token s)

pub data Reach (c : Crypto) (s : Store) : Store → Type 0 where
  begins : Reach c s s
  goes_on : {t u : Store} → Reach c s t → StoreStep c t u → Reach c s u

-- ===== src/Admin/Sessions.antt =====
-- internal/admin/store.go and protocols.go: which TLS clients are let in, and the live sessions.
use quic_lab.Common.{
  ℕ, Bool, not, Option, none, some, List, [], ◌∷◌, ◌==◌, if◌then◌else◌, length, Result, message,
  err, ok,
}
use quic_lab.Common.Bytes.{same}
use quic_lab.Common.Maps.{lookup, insert, delete}
use quic_lab.AwgServer.{enabled}
use quic_lab.Admin.{User, Store, allows}
use quic_lab.Admin.Accounts.{unavailable, sessions_of}

pub record Certificate : Type 0 where
  pub common_name : ℕ  -- a text that is no user's ID is a number that is no user's
  pub raw : List ℕ

pub record ConnectionState : Type 0 where
  pub has_chain : Bool  -- len(VerifiedChains) != 0
  pub certificates : List Certificate

-- What the code calls of the standard library: pem.Decode of a text, up to the bytes of its first
-- block, and sha256.Sum256.
pub record Crypto : Type 0 where
  pub decode : List ℕ → Option (List ℕ)
  pub digest : List ℕ → List ℕ

abbrev pub check_identity : Crypto → Certificate → User → Option (List ℕ) → Result ℕ
check_identity c cert u none = err (message "identity mismatch")
check_identity c cert u (some b) =
    if same (c.digest b) (c.digest cert.raw) then ok u.id else err (message "identity mismatch")

abbrev pub check_user : Crypto → ℕ → Certificate → Option User → Result ℕ
check_user c now cert none = err (message "client revoked or expired")
check_user c now cert (some u) =
    if unavailable now u
    then err (message "client revoked or expired")
    else check_identity c cert u (c.decode u.certificate)

abbrev pub check_leaf : Crypto → ℕ → List Certificate → Store → Result ℕ
check_leaf c now [] s = err (message "verified client certificate required")
check_leaf c now (cert ∷ rest) s = check_user c now cert (lookup cert.common_name s.users)

-- Store.allowed, which Verify calls on every TLS connection.
unfoldable pub allowed : Crypto → ℕ → ConnectionState → Store → Result ℕ
unfolding lookup same
allowed c now cs s =
    if not cs.has_chain
    then err (message "verified client certificate required")
    else check_leaf c now cs.certificates s

abbrev pub add_session : ℕ → ℕ → ℕ → Store → Store
add_session id token connection s = record s {
  active = insert id (insert token connection (sessions_of id s)) s.active;
}

-- Register: the token is what the function that is returned will take out again.
unfoldable pub register : Crypto → ℕ → ConnectionState → ℕ → ℕ → Store → Result (ℕ × ℕ) × Store
unfolding allowed lookup insert
register c now cs token connection s = elim (allowed c now cs s) [
  | err e ↦ (err e, s)
  | ok id ↦ (ok (id, token), add_session id token connection s)
]

abbrev pub user_allows : List ℕ → Option User → Bool
user_allows protocol none = enabled none protocol
user_allows protocol (some u) = allows u protocol

abbrev pub admit : List ℕ → ℕ → ℕ → Result ℕ → Store → Result (ℕ × ℕ) × Store
admit protocol token connection (err e) s = (err e, s)
admit protocol token connection (ok id) s =
    if not (user_allows protocol (lookup id s.users))
    then (err (message "protocol disabled for this user"), s)
    else (
      ok (id, token),
      record (add_session id token connection s) {
        session_protocols = insert token protocol s.session_protocols;
      },
    )

unfoldable pub register_protocol :
    Crypto → ℕ → ConnectionState → List ℕ → ℕ → ℕ → Store → Result (ℕ × ℕ) × Store
unfolding allowed lookup insert enabled
register_protocol c now cs protocol token connection s =
    admit protocol token connection (allowed c now cs s) s

-- `delete(s.active[id], token)`, and the user's entry with the last token.
abbrev pub drop_token : ℕ → ℕ → Store → Option (List (ℕ × ℕ)) → Store
drop_token id token s none = record s { active = delete id s.active }
drop_token id token s (some m) =
    if length (delete token m) == 0
    then record s { active = delete id s.active }
    else record s { active = insert id (delete token m) s.active }

-- The function that Register returns.
unfoldable pub release : ℕ → ℕ → Store → Store
unfolding lookup insert delete
release id token s = drop_token id token s (lookup id s.active)

-- The one that RegisterProtocol returns.
unfoldable pub release_protocol : ℕ → ℕ → Store → Store
unfolding release delete
release_protocol id token s = record (release id token s) {
  session_protocols = delete token s.session_protocols;
}

-- ===== src/Admin/Revocation.antt =====
-- internal/admin/store.go and protocols.go: no session outlives its account's permission.
use mathlib.Core.Path.{subst}
use quic_lab.Common.{
  ℕ, ◌≡◌, sym, ap, ◌∙◌, ◌⊎◌, inl, inr, true, false, Option, none, some, List, ◌==◌, ==_iff,
  Bool-cases,
}
use quic_lab.Common.Maps.{lookup, insert, lookup-insert, insert-cases}
use quic_lab.AwgServer.{enabled, contains_word}
use quic_lab.Admin.{User, Store, allows}
use quic_lab.Admin.Accounts.{sessions_of, text, protocol_of}

-- The account is there, is not disabled, and has the protocol.
abbrev pub IsPermitted : List ℕ → Option User → Type 0
IsPermitted protocol none = ⊥
IsPermitted protocol (some u) = (u.disabled ≡ false) × (allows u protocol ≡ true)

-- Each session that is in the table was closed or is still permitted.
abbrev pub Covers : List (ℕ × User) → List (ℕ × List ℕ) → List ℕ → ℕ → ℕ → ℕ → Type 0
Covers users protocols closed id token connection =
    (contains_word connection closed ≡ true)
    ⊎ IsPermitted (text (lookup token protocols)) (lookup id users)

abbrev pub HaveKeys : List (ℕ × User) → Type 0
HaveKeys m = (id : ℕ) (u : User) → lookup id m ≡ some u → u.id ≡ id

abbrev pub IsRevoked : Store → Type 0
IsRevoked s =
    HaveKeys s.users
    × ((id token connection : ℕ)
        → lookup token (sessions_of id s) ≡ some connection
        → Covers s.users s.session_protocols s.closed id token connection)

-- The same accounts under another order.
pub same_users-IsRevoked :
    (users : List (ℕ × User)) (s : Store)
    → ((k : ℕ) → lookup k users ≡ lookup k s.users)
    → IsRevoked s
    → IsRevoked (record s { users = users })
same_users-IsRevoked users s same_users (keys, covers) = (
  λ id. λ u. λ h. keys id u (sym (same_users id) ∙ h),
  λ id. λ token. λ connection. λ h. elim (covers id token connection h) [
    | inl closed ↦ inl closed
    | inr good ↦ inr (
        subst (IsPermitted (protocol_of token s)) {x = lookup id s.users} {y = lookup id users}
          (sym (same_users id)) good)
  ],
)

-- A changed account with the same switch and the same protocols.
pub insert-IsRevoked :
    (id : ℕ) (old new : User) (s : Store)
    → lookup id s.users ≡ some old
    → new.id ≡ old.id
    → new.disabled ≡ old.disabled
    → new.protocols ≡ old.protocols
    → IsRevoked s
    → IsRevoked (record s { users = insert id new s.users })
insert-IsRevoked id old new s found same_id same_switch same_protocols (keys, covers) = (
  λ i. λ u. λ h. elim (insert-cases id i new u s.users h) [
    | inl (e, same_user) ↦ sym (ap (λ (x : User). x.id) same_user) ∙ same_id ∙ keys id old found ∙ e
    | inr (ne, h') ↦ keys i u h'
  ],
  λ i. λ token. λ connection. λ h. elim (covers i token connection h) [
    | inl closed ↦ inl closed
    | inr good ↦ inr (go i (protocol_of token s) good)
  ],
)
  where
    go :
        (i : ℕ) (protocol : List ℕ)
        → IsPermitted protocol (lookup i s.users)
        → IsPermitted protocol (lookup i (insert id new s.users))
    go i protocol good = elim (Bool-cases (id == i)) [
      | inr e ↦ rw (lookup-insert id i new s.users, e) good
      | inl e ↦
          let here : lookup i s.users ≡ some old =
            ap (λ x. lookup x s.users) (sym ((==_iff id i).0 e)) ∙ found in
          let (on, has) : IsPermitted protocol (some old) = rw here at good in
          rw (lookup-insert id i new s.users, e)
            (same_switch ∙ on, ap (λ x. enabled x protocol) same_protocols ∙ has)
    ]

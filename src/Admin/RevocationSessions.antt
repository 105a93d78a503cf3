-- ===== src/Admin/RevocationSessions.antt =====
-- internal/admin/store.go and protocols.go: registering and releasing sessions.
use mathlib.Core.Path.{subst}
use quic_lab.Common.{
  ℕ, ◌≡◌, refl, sym, ap, ◌∙◌, ◌≢◌, inl, inr, true, false, not, Option, none, some, List, [], ◌∷◌,
  arith, ◌==◌, ==_iff, ==_refl, Bool-cases, if_cases, length, Result, err, ok,
}
use quic_lab.Common.Bytes.{same}
use quic_lab.Common.Maps.{
  lookup, insert, delete, lookup-insert, insert_hit, insert_miss, delete_hit, delete_miss,
  insert-cases, delete-cases,
}
use quic_lab.Admin.{User, Store, allows}
use quic_lab.Admin.Accounts.{unavailable, entries, sessions_of}
use quic_lab.Admin.Sessions.{
  Certificate, ConnectionState, Crypto, check_identity, check_user, check_leaf, allowed,
  add_session, user_allows, admit, drop_token, release, release_protocol,
}
use quic_lab.Admin.Steps.{IsNewToken, IsOwnToken}
use quic_lab.Admin.Revocation.{Covers, HaveKeys, IsRevoked}
use quic_lab.Admin.RevocationSteps.{no_entry}

-- What `allowed` lets in is an account that is there and is not disabled.
unfoldable pub LetsIn : Store → Result ℕ → Type 0
LetsIn s (err e) = Unit {0}
LetsIn s (ok id) = (u : User) × (lookup id s.users ≡ some u) × (u.disabled ≡ false)

pub allowed-LetsIn :
    (c : Crypto) (now : ℕ) (cs : ConnectionState) (s : Store)
    → HaveKeys s.users
    → LetsIn s (allowed c now cs s)
unfolding allowed LetsIn
allowed-LetsIn c now cs s has_keys =
    if_cases (LetsIn s) (not cs.has_chain) _ _ (λ e. tt) (λ e. leaf cs.certificates)
  where
    identity :
        (cert : Certificate) (u : User) (o : Option (List ℕ))
        → lookup u.id s.users ≡ some u
        → u.disabled ≡ false
        → LetsIn s (check_identity c cert u o)
    identity cert u none found on = tt
    identity cert u (some b) found on =
        if_cases (LetsIn s) (same (c.digest b) (c.digest cert.raw)) (ok u.id) _
          (λ e. (u, found, on)) (λ e. tt)

    user :
        (cert : Certificate) (o : Option User)
        → lookup cert.common_name s.users ≡ o
        → LetsIn s (check_user c now cert o)
    user cert none found = tt
    user cert (some u) found =
        if_cases (LetsIn s) (unavailable now u) _ _ (λ e. tt)
          (λ e.
            identity cert u (c.decode u.certificate)
              (ap (λ x. lookup x s.users) (has_keys cert.common_name u found) ∙ found)
              (ground arith))

    leaf : (certs : List Certificate) → LetsIn s (check_leaf c now certs s)
    leaf [] = tt
    leaf (cert ∷ rest) = user cert (lookup cert.common_name s.users) refl

pub admit-IsRevoked :
    (protocol : List ℕ) (token connection : ℕ) (r : Result ℕ) (s : Store)
    → LetsIn s r
    → IsNewToken token s
    → IsRevoked s
    → IsRevoked (admit protocol token connection r s).1
unfolding LetsIn
admit-IsRevoked protocol token connection (err e) s lets fresh good = good
admit-IsRevoked protocol token connection (ok id) s (u, found, on) fresh (has_keys, covers) =
    if_cases (λ (r : Result (ℕ × ℕ) × Store). IsRevoked r.1)
      (not (user_allows protocol (lookup id s.users))) _ _ (λ e. (has_keys, covers))
      (λ e. (has_keys, session (has_protocol e)))
  where
    has_protocol : not (user_allows protocol (lookup id s.users)) ≡ false → allows u protocol ≡ true
    has_protocol e =
        let h : not (allows u protocol) ≡ false =
          ap (λ o. not (user_allows protocol o)) (sym found) ∙ e in
        ground arith

    old :
        (i t n : ℕ)
        → lookup t (sessions_of i s) ≡ some n
        → Covers s.users (insert token protocol s.session_protocols) s.closed i t n
    old i t n h = elim (Bool-cases (token == t)) [
      | inl e ↦
          let none_there : lookup t (sessions_of i s) ≡ none =
            ap (λ x. lookup x (sessions_of i s)) (sym ((==_iff token t).0 e)) ∙ fresh i in
          absurd (let bad : none ≡ some n = sym none_there ∙ h in cc)
      | inr e ↦ rw (lookup-insert token t protocol s.session_protocols, e) (covers i t n h)
    ]

    new_session :
        (i : ℕ)
        → allows u protocol ≡ true
        → id ≡ i
        → Covers s.users (insert token protocol s.session_protocols) s.closed i token connection
    new_session i has same_id = inr (
        rw (lookup-insert token token protocol s.session_protocols, ==_refl token)
          (rw (ap (λ x. lookup x s.users) (sym same_id) ∙ found) (on, has)))

    session :
        allows u protocol ≡ true
        → (i t n : ℕ) → lookup t (sessions_of i (add_session id token connection s)) ≡ some n
        → Covers s.users (insert token protocol s.session_protocols) s.closed i t n
    session has i t n h = elim (Bool-cases (id == i)) [
      | inr e ↦
          let same_sessions =
            insert_miss id i (insert token connection (sessions_of id s)) s.active e in
          old i t n (sym (ap (λ o. lookup t (entries o)) same_sessions) ∙ h)
      | inl e ↦
          let these = insert_hit id i (insert token connection (sessions_of id s)) s.active e in
          elim (insert-cases token t connection n (sessions_of id s)
            (sym (ap (λ o. lookup t (entries o)) these) ∙ h)) [
              | inl (f, same_connection) ↦
                  subst
                    (λ x. Covers s.users (insert token protocol s.session_protocols) s.closed i x n)
                    f
                    (subst
                      (Covers s.users (insert token protocol s.session_protocols) s.closed i token)
                      same_connection (new_session i has ((==_iff id i).0 e)))
              | inr (ne, h') ↦
                  old i t n
                    (subst (λ x. lookup t (sessions_of x s) ≡ some n) ((==_iff id i).0 e) h')
            ]
    ]

-- What is left in the table after a release was there before, and is not the token of that user.
release-sessions :
    (id token i t n : ℕ) (s : Store)
    → lookup t (sessions_of i (release id token s)) ≡ some n
    → (lookup t (sessions_of i s) ≡ some n) × (i ≡ id → t ≢ token)
unfolding release
release-sessions id token i t n s h = go (lookup id s.active) refl h
  where
    gone :
        lookup t (entries (lookup i (delete id s.active))) ≡ some n
        → (lookup t (sessions_of i s) ≡ some n) × (i ≡ id → t ≢ token)
    gone k = elim (Bool-cases (id == i)) [
      | inl e ↦
          let none_there =
            ap (λ o. lookup t (entries o)) (delete_hit id i s.active e) ∙ no_entry t in
          absurd (let bad : none ≡ some n = sym none_there ∙ k in cc)
      | inr e ↦
          let same_sessions = ap (λ o. lookup t (entries o)) (delete_miss id i s.active e) in
          (sym same_sessions ∙ k, λ same_id. absurd (ground arith))
    ]

    rest :
        (m : List (ℕ × ℕ))
        → lookup id s.active ≡ some m
        → lookup t (entries (lookup i (insert id (delete token m) s.active))) ≡ some n
        → (lookup t (sessions_of i s) ≡ some n) × (i ≡ id → t ≢ token)
    rest m found k = elim (Bool-cases (id == i)) [
      | inl e ↦
          let these =
            ap (λ o. lookup t (entries o)) (insert_hit id i (delete token m) s.active e) in
          let (ne, k') = delete-cases token t n m (sym these ∙ k) in
          let here : lookup i s.active ≡ some m =
            ap (λ x. lookup x s.active) (sym ((==_iff id i).0 e)) ∙ found in
          (ap (λ o. lookup t (entries o)) here ∙ k', λ same_id. λ same_token. ne (sym same_token))
      | inr e ↦
          let same_sessions =
            ap (λ o. lookup t (entries o)) (insert_miss id i (delete token m) s.active e) in
          (sym same_sessions ∙ k, λ same_id. absurd (ground arith))
    ]

    go :
        (o : Option (List (ℕ × ℕ)))
        → lookup id s.active ≡ o
        → lookup t (sessions_of i (drop_token id token s o)) ≡ some n
        → (lookup t (sessions_of i s) ≡ some n) × (i ≡ id → t ≢ token)
    go none found k = gone k
    go (some m) found k =
        if_cases
          (λ (x : Store).
            lookup t (sessions_of i x) ≡ some n
            → (lookup t (sessions_of i s) ≡ some n) × (i ≡ id → t ≢ token))
          (length (delete token m) == 0) _ _ (λ e. λ k. gone k) (λ e. λ k. rest m found k) k

release-fields :
    (id token : ℕ) (s : Store)
    → ((release id token s).users ≡ s.users)
      × ((release id token s).closed ≡ s.closed)
      × ((release id token s).session_protocols ≡ s.session_protocols)
unfolding release
release-fields id token s = go (lookup id s.active)
  where
    Same : Store → Type 0
    Same x =
        (x.users ≡ s.users) × (x.closed ≡ s.closed) × (x.session_protocols ≡ s.session_protocols)

    go : (o : Option (List (ℕ × ℕ))) → Same (drop_token id token s o)
    go none = (refl, refl, refl)
    go (some m) =
        if_cases Same (length (delete token m) == 0) _ _ (λ e. (refl, refl, refl))
          (λ e. (refl, refl, refl))

pub release-IsRevoked :
    (id token : ℕ) (s : Store)
    → IsOwnToken id token s
    → IsRevoked s
    → IsRevoked (release_protocol id token s)
unfolding release_protocol
release-IsRevoked id token s own (has_keys, covers) =
    let (same_users, same_closed, same_protocols) = release-fields id token s in
    (
      rw same_users has_keys,
      λ i. λ t. λ n. λ h.
          let (there, other) = release-sessions id token i t n s h in
          rw (same_users, same_closed) (kept i t n there other),
    )
  where
    not_this :
        (i t n : ℕ)
        → lookup t (sessions_of i s) ≡ some n
        → (i ≡ id → t ≢ token)
        → (token == t) ≡ false
    not_this i t n there other = elim (Bool-cases (token == t)) [
      | inr e ↦ e
      | inl e ↦
          let same_token = (==_iff token t).0 e in
          elim (Bool-cases (i == id)) [
            | inl f ↦ absurd (other ((==_iff i id).0 f) (sym same_token))
            | inr f ↦
                let nothing =
                  ap (λ x. lookup x (sessions_of i s)) (sym same_token) ∙ own i (ground arith) in
                absurd (let bad : none ≡ some n = sym nothing ∙ there in cc)
          ]
    ]

    kept :
        (i t n : ℕ)
        → lookup t (sessions_of i s) ≡ some n
        → (i ≡ id → t ≢ token)
        → Covers s.users (delete token s.session_protocols) s.closed i t n
    kept i t n there other =
        rw (delete_miss token t s.session_protocols (not_this i t n there other))
          (covers i t n there)

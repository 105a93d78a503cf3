-- ===== src/Admin/Admission.antt =====
-- internal/admin/store.go: who passes Store.allowed, and so the TLS handshake.
use quic_lab.Common.{
  ℕ, ◌≤◌, ◌≡◌, refl, sym, ap, ◌↔◌, inl, inr, true, false, Option, none, some, List, [], ◌∷◌, arith,
  Bool-cases, message, err, ok,
}
use quic_lab.Common.Bytes.{same, same-eq, same_refl}
use quic_lab.Common.Maps.{lookup}
use quic_lab.Admin.{User, Store}
use quic_lab.Admin.Accounts.{unavailable}
use quic_lab.Admin.Sessions.{
  Certificate, ConnectionState, Crypto, check_identity, check_user, check_leaf, allowed,
}

-- The account `u` is live at `now`, and the certificate is the one that was issued to it.
abbrev pub Owns : Crypto → ℕ → Certificate → User → Type 0
Owns c now cert u =
    (u.disabled ≡ false)
    × (now ≤ u.expires)
    × ((b : List ℕ) × (c.decode u.certificate ≡ some b) × (c.digest b ≡ c.digest cert.raw))

-- The verified certificate at the head of the chain is that of the account under its common name.
abbrev pub MayEnter : Crypto → ℕ → ConnectionState → Store → ℕ → Type 0
MayEnter c now cs s id =
    (cs.has_chain ≡ true)
    × ((cert : Certificate) × (rest : List Certificate) × (u : User) × (cs.certificates
          ≡ cert ∷ rest)
        × (lookup cert.common_name s.users ≡ some u)
        × (id ≡ u.id)
        × Owns c now cert u)

identity-passes :
    (c : Crypto) (cert : Certificate) (u : User) (id : ℕ) (o : Option (List ℕ))
    → check_identity c cert u o ≡ ok id
    → (id ≡ u.id) × ((b : List ℕ) × (o ≡ some b) × (c.digest b ≡ c.digest cert.raw))
identity-passes c cert u id none h = cc
identity-passes c cert u id (some b) h = elim (Bool-cases (same (c.digest b) (c.digest cert.raw))) [
  | inl e ↦
      let found : ok u.id ≡ ok id = rw e at h in
      (cc found, (b, refl, same-eq (c.digest b) (c.digest cert.raw) e))
  | inr e ↦ absurd (let found : err (message "identity mismatch") ≡ ok id = rw e at h in cc)
]

user-passes :
    (c : Crypto) (now id : ℕ) (cert : Certificate) (u : User)
    → check_user c now cert (some u) ≡ ok id
    → (id ≡ u.id) × Owns c now cert u
user-passes c now id cert u h = elim (Bool-cases (unavailable now u)) [
  | inl e ↦ absurd (let found : err (message "client revoked or expired") ≡ ok id = rw e at h in cc)
  | inr e ↦
      let (same_id, issued) = identity-passes c cert u id (c.decode u.certificate) (rw e at h) in
      (same_id, (ground arith, ground arith, issued))
]

leaf-passes :
    (c : Crypto) (now id : ℕ) (certs : List Certificate) (s : Store)
    → check_leaf c now certs s ≡ ok id
    → (cert : Certificate) × (rest : List Certificate) × (u : User) × (certs ≡ cert ∷ rest)
      × (lookup cert.common_name s.users ≡ some u)
      × (id ≡ u.id)
      × Owns c now cert u
leaf-passes c now id [] s h = cc
leaf-passes c now id (cert ∷ rest) s h = go (lookup cert.common_name s.users) refl h
  where
    go :
        (o : Option User)
        → lookup cert.common_name s.users ≡ o
        → check_user c now cert o ≡ ok id
        → (other : Certificate) × (more : List Certificate) × (u : User) × (◌≡◌
            {A = List Certificate}
            (cert ∷ rest)
            (other ∷ more))
          × (lookup other.common_name s.users ≡ some u)
          × (id ≡ u.id)
          × Owns c now other u
    go none found h = cc
    go (some u) found h =
        let (same_id, owns) = user-passes c now id cert u h in
        (cert, rest, u, refl, found, same_id, owns)

-- A TLS client passes as the account `id` exactly if its chain was verified, and the account under
-- the common name of its own certificate has that ID, is not disabled, has not expired, and was
-- issued a certificate with the same digest.
pub allowed_lem :
    (c : Crypto) (now id : ℕ) (cs : ConnectionState) (s : Store)
    → (allowed c now cs s ≡ ok id) ↔ MayEnter c now cs s id
unfolding allowed
allowed_lem c now id cs s = (there, back)
  where
    there : allowed c now cs s ≡ ok id → MayEnter c now cs s id
    there h = elim (Bool-cases cs.has_chain) [
      | inl e ↦ (e, leaf-passes c now id cs.certificates s (rw e at h))
      | inr e ↦ absurd (
          let found : err (message "verified client certificate required") ≡ ok id = rw e at h in
          cc)
    ]

    back : MayEnter c now cs s id → allowed c now cs s ≡ ok id
    back (chain, (cert, rest, u, certs, found, same_id, (on, live, (b, decoded, digest)))) =
        let usable : unavailable now u ≡ false = ground arith in
        let alike : same (c.digest b) (c.digest cert.raw) ≡ true =
          rw digest (same_refl (c.digest cert.raw)) in
        rw (chain, certs, found, usable, decoded, alike) (ap ok (sym same_id))

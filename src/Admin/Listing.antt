-- ===== src/Admin/Listing.antt =====
-- internal/admin/store.go: List, what the web pages see of the accounts. sort.Slice is an insertion
-- sort here; accounts of the same instant may come in another order in the code.
use quic_lab.Common.{
  ℕ, ◌+◌, ◌≤◌, ◌≡◌, refl, sym, ap, inl, inr, Option, none, some, List, [], ◌∷◌, arith, ltb, ◌==◌,
  if◌then◌else◌, Bool-cases, All,
}
use quic_lab.AwgServer.{Peer}
use quic_lab.Admin.{User}

abbrev pub redact_peer : Option Peer → Option Peer
redact_peer none = none
redact_peer (some p) = some (record p { private_key = []; psk = [] })

abbrev pub redact : User → User
redact u = record u { key = []; certificate = []; peer = redact_peer u.peer }

unfoldable pub insert_by_created : User → List User → List User
insert_by_created u [] = u ∷ []
insert_by_created u (v ∷ vs) =
    let later = insert_by_created u vs in if ltb v.created u.created then v ∷ later else u ∷ v ∷ vs

-- Store.List, less the statistics of each account.
unfoldable pub list_users : List (ℕ × User) → List User
unfolding insert_by_created
list_users [] = []
list_users ((id, u) ∷ m) = insert_by_created (redact u) (list_users m)

abbrev pub HasNoSecret : User → Type 0
HasNoSecret u =
    (u.key ≡ [])
    × (u.certificate ≡ [])
    × ((p : Peer) → u.peer ≡ some p → (p.private_key ≡ []) × (p.psk ≡ []))

abbrev pub InOrderFrom : ℕ → List User → Type 0
InOrderFrom first [] = Unit {0}
InOrderFrom first (u ∷ us) = (first ≤ u.created) × InOrderFrom u.created us

-- How often an account of this ID and name is listed, or stored.
abbrev pub listed : ℕ → List User → ℕ
listed id [] = 0
listed id (u ∷ us) = (if u.id == id then 1 else 0) + listed id us

abbrev pub stored_times : ℕ → List (ℕ × User) → ℕ
stored_times id [] = 0
stored_times id ((k, u) ∷ m) = (if u.id == id then 1 else 0) + stored_times id m

redact-HasNoSecret : (u : User) → HasNoSecret (redact u)
redact-HasNoSecret u = (refl, refl, λ p. λ h. go u.peer p h)
  where
    go : (o : Option Peer) (p : Peer) → redact_peer o ≡ some p → (p.private_key ≡ []) × (p.psk ≡ [])
    go none p h = cc
    go (some q) p h =
        let this : record q { private_key = []; psk = [] } ≡ p = cc in
        (sym (ap (λ (x : Peer). x.private_key) this), sym (ap (λ (x : Peer). x.psk) this))

insert-All :
    (P : User → Type 0) (u : User) (us : List User)
    → P u
    → All P us
    → All P (insert_by_created u us)
unfolding insert_by_created
insert-All P u [] h a = (h, tt)
insert-All P u (v ∷ vs) h (hv, a) = elim (Bool-cases (ltb v.created u.created)) [
  | inl e ↦ rw e (hv, insert-All P u vs h a)
  | inr e ↦ rw e (h, (hv, a))
]

insert-InOrderFrom :
    (first : ℕ) (u : User) (us : List User)
    → first ≤ u.created
    → InOrderFrom first us
    → InOrderFrom first (insert_by_created u us)
unfolding insert_by_created
insert-InOrderFrom first u [] h o = (h, tt)
insert-InOrderFrom first u (v ∷ vs) h (k, o) = elim (Bool-cases (ltb v.created u.created)) [
  | inl e ↦ rw e (k, insert-InOrderFrom v.created u vs (ground arith) o)
  | inr e ↦ rw e (h, (ground arith, o))
]

listed-insert :
    (id : ℕ) (u : User) (us : List User)
    → listed id (insert_by_created u us) ≡ (if u.id == id then 1 else 0) + listed id us
unfolding insert_by_created
listed-insert id u [] = refl
listed-insert id u (v ∷ vs) = ground (arith, listed-insert id u vs)

-- The list of accounts has each account as often as the store has it, in the order of their
-- creation, and in no entry a certificate, a key, or a tunnel's private or shared key.
pub list_users_lem :
    (m : List (ℕ × User))
    → All HasNoSecret (list_users m)
      × InOrderFrom 0 (list_users m)
      × ((id : ℕ) → listed id (list_users m) ≡ stored_times id m)
unfolding list_users
list_users_lem [] = (tt, tt, λ id. refl)
list_users_lem ((k, u) ∷ m) =
    let (secret, order, times) = list_users_lem m in
    (
      insert-All HasNoSecret (redact u) (list_users m) (redact-HasNoSecret u) secret,
      insert-InOrderFrom 0 (redact u) (list_users m) (omega arith) order,
      λ id. omega (arith, listed-insert id (redact u) (list_users m), times id),
    )

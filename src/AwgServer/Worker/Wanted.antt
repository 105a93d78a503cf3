-- ===== src/AwgServer/Worker/Wanted.antt =====
-- internal/awgserver/worker.go: the peers that Apply wants are those of the enabled accounts.
use mathlib.Core.Path.{subst}
use quic_lab.Common.{
  ℕ, ◌≡◌, refl, sym, ◌∙◌, ◌⊎◌, inl, inr, true, false, not, ◌||◌, Option, none, some, List, [], ◌∷◌,
  arith, ◌==◌, ==_iff, ==_refl, Bool-cases, is_some, if_cases,
}
use quic_lab.Common.Bytes.{member}
use quic_lab.Net.{parse_ip4, Prefix}
use quic_lab.Common.Maps.{lookup, insert, insert_hit, insert_miss, insert-cases}
use quic_lab.AwgServer.Worker.{
  Setting, WorkerPeer, WorkerUser, enabled_peer, Applied, in_pool, want_keys, want_peer, then_want,
  want_one, want_all, same_setting, applied, failed,
}
use quic_lab.AwgServer.Worker.Applying.{Distinct}

-- The peer has the key and the setting.
abbrev pub PeerIs : Option WorkerPeer → ℕ → Setting → Type 0
PeerIs none key s = ⊥
PeerIs (some p) key s = (p.public_key ≡ some key) × (p.psk ≡ some s.psk) × (p.address ≡ s.address)

-- Some enabled account has the peer.
abbrev pub SomeUserHas : ℕ → List (ℕ × WorkerUser) → ℕ → Setting → Type 0
SomeUserHas now [] key s = ⊥
SomeUserHas now ((id, u) ∷ users) key s =
    PeerIs (enabled_peer now u) key s ⊎ SomeUserHas now users key s

-- The peer of each enabled account is found in the table.
abbrev pub PeerFound : (ℕ → Option Setting) → Option WorkerPeer → Type 0
PeerFound found none = Unit {0}
PeerFound found (some p) = (key : ℕ) × (s : Setting) × PeerIs (some p) key s × (found key ≡ some s)

abbrev pub AllFound : ℕ → (ℕ → Option Setting) → List (ℕ × WorkerUser) → Type 0
AllFound now found [] = Unit {0}
AllFound now found ((id, u) ∷ users) =
    PeerFound found (enabled_peer now u) × AllFound now found users

-- What one account adds to the table.
abbrev Added : WorkerPeer → List (ℕ × Setting) → Applied (List (ℕ × Setting)) → Type 0
Added p desired (failed e) = Unit {0}
Added p desired (applied next) =
    (key : ℕ) × (s : Setting) × PeerIs (some p) key s
    × (lookup key desired ≡ none)
    × (next ≡ insert key s desired)

want_keys-Added :
    (p : WorkerPeer) (key psk : Option ℕ) (desired : List (ℕ × Setting))
    → p.public_key ≡ key
    → p.psk ≡ psk
    → Added p desired (want_keys p key psk desired)
want_keys-Added p none psk desired e f = tt
want_keys-Added p (some key) none desired e f = tt
want_keys-Added p (some key) (some psk) desired e f =
    if_cases (Added p desired) (is_some (lookup key desired)) _ _ (λ g. tt)
      (λ g. (
        key,
        record { psk = psk; address = p.address },
        (e, f, refl),
        not_some (lookup key desired) g,
        refl,
      ))
  where
    not_some : (o : Option Setting) → is_some o ≡ false → o ≡ none
    not_some none h = refl
    not_some (some t) h = absurd (let bad : true ≡ false = h in cc)

want_peer-Added :
    (pool : Option Prefix) (used : List (List ℕ)) (p : WorkerPeer) (desired : List (ℕ × Setting))
    → Added p desired (want_peer pool used p desired)
unfolding want_peer
want_peer-Added pool used p desired =
    if_cases (Added p desired) (not (in_pool pool (parse_ip4 p.address)) || member p.address used) _
      _ (λ e. tt) (λ e. want_keys-Added p p.public_key p.psk desired refl refl)

insert-Distinct :
    (key : ℕ) (s : Setting) (m : List (ℕ × Setting))
    → lookup key m ≡ none
    → Distinct m
    → Distinct (insert key s m)
unfolding lookup insert
insert-Distinct key s [] n d = (refl, tt)
insert-Distinct key s ((j, t) ∷ m) n (alone, d) = elim (Bool-cases (j == key)) [
  | inl e ↦ absurd (let bad : some t ≡ none = rw e at n in cc)
  | inr e ↦
      rw e (insert_miss key j s m (ground arith) ∙ alone, insert-Distinct key s m (rw e at n) d)
]

-- What the loop has gathered when it does not fail.
abbrev pub Gathered :
    ℕ → List (ℕ × WorkerUser) → List (ℕ × Setting) → Applied (List (ℕ × Setting)) → Type 0
Gathered now users desired (failed e) = Unit {0}
Gathered now users desired (applied next) =
    Distinct next
    × ((key : ℕ) (s : Setting) → lookup key desired ≡ some s → lookup key next ≡ some s)
    × ((key : ℕ) (s : Setting)
        → lookup key next ≡ some s
        → (lookup key desired ≡ some s) ⊎ SomeUserHas now users key s)
    × AllFound now (λ key. lookup key next) users

insert_keeps :
    (key j : ℕ) (s t : Setting) (m : List (ℕ × Setting))
    → lookup key m ≡ none
    → lookup j m ≡ some t
    → lookup j (insert key s m) ≡ some t
insert_keeps key j s t m alone h = elim (Bool-cases (key == j)) [
  | inl e ↦
      let this : key ≡ j = (==_iff key j).0 e in
      absurd (let bad : none ≡ some t = sym (subst (λ k. lookup k m ≡ none) this alone) ∙ h in cc)
  | inr e ↦ insert_miss key j s m e ∙ h
]

then_want-Gathered :
    (now : ℕ) (id : ℕ) (u : WorkerUser) (users : List (ℕ × WorkerUser)) (p : WorkerPeer)
    (desired : List (ℕ × Setting)) (a : Applied (List (ℕ × Setting)))
    (k : List (ℕ × Setting) → Applied (List (ℕ × Setting)))
    → enabled_peer now u ≡ some p
    → Distinct desired
    → Added p desired a
    → ((next : List (ℕ × Setting)) → Distinct next → Gathered now users next (k next))
    → Gathered now ((id, u) ∷ users) desired (then_want a k)
then_want-Gathered now id u users p desired (failed e) k found d added later = tt
then_want-Gathered now id u users p desired (applied next) k found d (key, s, is_peer, alone, e)
      later =
    on_rest (k next) (later next (rw e (insert-Distinct key s desired alone d)))
  where
    on_rest :
        (r : Applied (List (ℕ × Setting)))
        → Gathered now users next r
        → Gathered now ((id, u) ∷ users) desired r
    on_rest (failed bad) h = tt
    on_rest (applied last) (distinct, stays, sound, complete) = (
      distinct,
      (λ j t h. stays j t (rw e (insert_keeps key j s t desired alone h))),
      (λ j t h. elim (sound j t h) [
        | inl before ↦ elim (insert-cases key j s t desired (rw e at before)) [
          | inl (same_key, same_setting) ↦ inr (
              inl (
                rw found (
                  subst (λ x. PeerIs (some p) x t) same_key
                    (subst (λ x. PeerIs (some p) key x) same_setting is_peer))))
          | inr (other, old) ↦ inl old
        ]
        | inr others ↦ inr (inr others)
      ]),
      (
        rw found (key, s, is_peer, stays key s (rw e (insert_hit key key s desired (==_refl key)))),
        complete,
      ),
    )

-- The step at an account with and without a peer.
want_one-Gathered :
    (now id : ℕ) (u : WorkerUser) (users : List (ℕ × WorkerUser)) (desired : List (ℕ × Setting))
    (o : Option WorkerPeer) (skipped : Applied (List (ℕ × Setting)))
    (k : WorkerPeer → Applied (List (ℕ × Setting)))
    → enabled_peer now u ≡ o
    → Gathered now users desired skipped
    → ((p : WorkerPeer)
        → enabled_peer now u ≡ some p
        → Gathered now ((id, u) ∷ users) desired (k p))
    → Gathered now ((id, u) ∷ users) desired (want_one o skipped k)
want_one-Gathered now id u users desired none (failed e) k found skip later = tt
want_one-Gathered now id u users desired none (applied next) k found (distinct, stays, sound, all)
      later =
    (distinct, stays, (λ key s h. weaken key s (sound key s h)), (rw found tt, all))
  where
    weaken :
        (key : ℕ) (s : Setting)
        → (lookup key desired ≡ some s) ⊎ SomeUserHas now users key s
        → (lookup key desired ≡ some s) ⊎ SomeUserHas now ((id, u) ∷ users) key s
    weaken key s (inl h) = inl h
    weaken key s (inr h) = inr (inr h)
want_one-Gathered now id u users desired (some p) skipped k found skip later = later p found

pub want_all-Gathered :
    (now : ℕ) (pool : Option Prefix) (used : List (List ℕ)) (desired : List (ℕ × Setting))
    (users : List (ℕ × WorkerUser))
    → Distinct desired
    → Gathered now users desired (want_all now pool used desired users)
unfolding want_all
want_all-Gathered now pool used desired [] d = (d, (λ key s h. h), (λ key s h. inl h), tt)
want_all-Gathered now pool used desired ((id, u) ∷ users) d =
    want_one-Gathered now id u users desired (enabled_peer now u)
      (want_all now pool used desired users)
      (λ p.
        then_want (want_peer pool used p desired)
          (λ next. want_all now pool (p.address ∷ used) next users))
      refl (want_all-Gathered now pool used desired users d)
      (λ p found.
        then_want-Gathered now id u users p desired (want_peer pool used p desired)
          (λ next. want_all now pool (p.address ∷ used) next users) found d
          (want_peer-Added pool used p desired)
          (λ next e. want_all-Gathered now pool (p.address ∷ used) next users e))

-- ===== src/Admin/Live/Addresses.antt =====
-- internal/admin/stats.go and awg_stats.go: where the traffic of the users stands.
use quic_lab.Common.{
  ℕ, ◌≤◌, ◌<◌, ◌≡◌, refl, ap, inl, inr, Bool, Option, none, some, List, arith, Result, err, ok,
}
use quic_lab.Common.Maps.{lookup, insert, insert-cases, delete-cases}
use quic_lab.Admin.{User, Store}
use quic_lab.Admin.Sessions.{ConnectionState, Crypto, allowed}
use quic_lab.Admin.Live.Steps.{LiveReach, reach-P}
use quic_lab.Admin.Live.{
  UserTraffic, fresh_traffic, Live, add_traffic, traffic_of, change_traffic, change_user, Tracked,
  saw, track_user, track, drop_traffic,
}

-- Every traffic that a user has was made.
abbrev pub IsMade : Live → Type 0
IsMade l = (id address : ℕ) → lookup id l.stats ≡ some address → address < l.next_traffic

traffic_of-IsMade :
    (id : ℕ) (l : Live)
    → IsMade l
    → IsMade (traffic_of id l).1 × ((traffic_of id l).0 < (traffic_of id l).1.next_traffic)
unfolding traffic_of
traffic_of-IsMade id l made = go (lookup id l.stats) refl
  where
    found : Option ℕ → ℕ × Live
    found o = elim o [
      | some address ↦ (address, l)
      | none ↦ (l.next_traffic, add_traffic id fresh_traffic l)
    ]

    go :
        (o : Option ℕ)
        → lookup id l.stats ≡ o
        → IsMade (found o).1 × ((found o).0 < (found o).1.next_traffic)
    go (some address) e = (made, made id address e)
    go none e = (
      λ i a h. elim (insert-cases id i l.next_traffic a l.stats h) [
        | inl (same_id, new) ↦ omega (arith, new)
        | inr (other, before) ↦ omega (arith, made i a before)
      ],
      omega arith,
    )

change_traffic-IsMade :
    (address : ℕ) (f : UserTraffic → UserTraffic) (l : Live)
    → IsMade l
    → IsMade (change_traffic address f l)
unfolding change_traffic
change_traffic-IsMade address f l made = go (lookup address l.traffics)
  where
    go :
        (o : Option UserTraffic)
        → IsMade
            (elim o [ none ↦ l | some t ↦ record l { traffics = insert address (f t) l.traffics } ])
    go none = made
    go (some t) = made

drop_traffic-IsMade : (id : ℕ) (s : Store) (l : Live) → IsMade l → IsMade (drop_traffic id s l)
drop_traffic-IsMade id s l made i a h = made i a (delete-cases id i a l.stats h).1

pub reach-IsMade : {used : ℕ} {l m : Live} → LiveReach used l m → IsMade l → IsMade m
reach-IsMade {used} =
    reach-P used IsMade (λ id l made. (traffic_of-IsMade id l made).0)
      (λ address f l quiet. change_traffic-IsMade address f l)
      (λ s previous updated started l made. made) (λ l made. made) drop_traffic-IsMade

traffic_of-next : (id : ℕ) (l : Live) → l.next_traffic ≤ (traffic_of id l).1.next_traffic
unfolding traffic_of
traffic_of-next id l = go (lookup id l.stats)
  where
    found : Option ℕ → ℕ × Live
    found o = elim o [
      | some address ↦ (address, l)
      | none ↦ (l.next_traffic, add_traffic id fresh_traffic l)
    ]

    go : (o : Option ℕ) → l.next_traffic ≤ (found o).1.next_traffic
    go (some address) = omega arith
    go none = omega arith

change_traffic-next :
    (address : ℕ) (f : UserTraffic → UserTraffic) (l : Live)
    → (change_traffic address f l).next_traffic ≡ l.next_traffic
unfolding change_traffic
change_traffic-next address f l = go (lookup address l.traffics)
  where
    changed : Option UserTraffic → Live
    changed o = elim o [
      | none ↦ l
      | some t ↦ record l { traffics = insert address (f t) l.traffics }
    ]

    go : (o : Option UserTraffic) → (changed o).next_traffic ≡ l.next_traffic
    go none = refl
    go (some t) = refl

change_user-next :
    (id : ℕ) (f : User → User) (l : Live) → (change_user id f l).next_traffic ≡ l.next_traffic
unfolding change_user
change_user-next id f l = go (lookup id l.store.users)
  where
    changed : Option User → Live
    changed o = elim o [
      | none ↦ l
      | some u ↦ record l { store = record l.store { users = insert id (f u) l.store.users } }
    ]

    go : (o : Option User) → (changed o).next_traffic ≡ l.next_traffic
    go none = refl
    go (some u) = refl

pub reach-next :
    {used : ℕ} {l m : Live} (address : ℕ)
    → LiveReach used l m
    → address < l.next_traffic
    → address < m.next_traffic
reach-next {used} address =
    reach-P used (λ l. address < l.next_traffic)
      (λ id l old. omega (arith, old, traffic_of-next id l))
      (λ a f l quiet old. omega (arith, old, change_traffic-next a f l))
      (λ s previous updated started l old. old) (λ l old. old) (λ id s l old. old)

-- The traffic that Track gives a connection was made.
pub track-old :
    (h : Tracked) (c : Crypto) (now : ℕ) (cs : ConnectionState) (transport : List ℕ)
    (connection token : ℕ) (path : List ℕ) (saved : Bool) (l : Live)
    → IsMade l
    → (track c now cs transport connection token path saved l).0 ≡ some h
    → h.address < (track c now cs transport connection token path saved l).1.next_traffic
unfolding track
track-old h c now cs transport connection token path saved l made = go (allowed c now cs l.store)
  where
    tried : Result ℕ → Option Tracked × Live
    tried r = elim r [
      | err e ↦ (none, l)
      | ok id ↦
          let (t, after) =
            track_user now transport connection token path saved id (traffic_of id l) in
          (some t, after)
    ]

    go : (r : Result ℕ) → (tried r).0 ≡ some h → h.address < (tried r).1.next_traffic
    go (err e) k = cc
    go (ok id) k =
        let this : (traffic_of id l).0 ≡ h.address =
          ap (λ (o : Option Tracked). address_of o h) k in
        rw
          (
            change_user-next id (saw now transport path)
                (change_traffic (traffic_of id l).0 _ (traffic_of id l).1),
            change_traffic-next (traffic_of id l).0 _ (traffic_of id l).1,
          )
          (omega (arith, this, (traffic_of-IsMade id l made).1))
      where
        address_of : Option Tracked → Tracked → ℕ
        address_of none k = k.address
        address_of (some t) k = t.address

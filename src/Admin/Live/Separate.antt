-- ===== src/Admin/Live/Separate.antt =====
-- internal/admin/stats.go and awg_stats.go: no two users share the traffic that is counted for them.
use quic_lab.Common.{
  ℕ, ◌<◌, ◌≡◌, refl, ◌∙◌, inl, inr, Bool, true, Option, none, some, List, [], ◌∷◌, arith, is_some,
}
use quic_lab.Common.Maps.{lookup, insert, lookup-insert, insert-cases, delete-cases}
use quic_lab.AwgServer.Worker.{PeerStatus}
use quic_lab.Admin.{Store}
use quic_lab.Admin.Live.Steps.{LiveReach, after_peer, reach-P}
use quic_lab.Admin.Live.{
  UserTraffic, fresh_traffic, Live, add_traffic, traffic_of, change_traffic, drop_traffic,
}
use quic_lab.Admin.Live.Awg.{observe_peer, clear_awg}

abbrev pub IsSeparate : Live → Type 0
IsSeparate l =
    (i a : ℕ)
    → lookup i l.stats ≡ some a
    → (a < l.next_traffic)
      × (is_some (lookup a l.traffics) ≡ true)
      × ((j : ℕ) → lookup j l.stats ≡ some a → i ≡ j)

add_traffic-IsSeparate :
    (id : ℕ) (t : UserTraffic) (l : Live) → IsSeparate l → IsSeparate (add_traffic id t l)
add_traffic-IsSeparate id t l apart i a h = elim (insert-cases id i l.next_traffic a l.stats h) [
  | inl (same_id, new) ↦ (
    omega (arith, new),
    ground (arith, new, lookup-insert l.next_traffic a t l.traffics),
    λ j k. elim (insert-cases id j l.next_traffic a l.stats k) [
      | inl (also, again) ↦ omega (arith, same_id, also)
      | inr (other, before) ↦ absurd (omega (arith, (apart j a before).0, new))
    ],
  )
  | inr (other, before) ↦
      let (old, there, alone) = apart i a before in
      (
        omega (arith, old),
        ground (arith, old, there, lookup-insert l.next_traffic a t l.traffics),
        λ j k. elim (insert-cases id j l.next_traffic a l.stats k) [
          | inl (also, again) ↦ absurd (omega (arith, old, again))
          | inr (others, found) ↦ alone j found
        ],
      )
]

abbrev found_traffic : ℕ → Live → Option ℕ → ℕ × Live
found_traffic id l o = elim o [
  | some address ↦ (address, l)
  | none ↦ (l.next_traffic, add_traffic id fresh_traffic l)
]

-- What traffic_of answers is the traffic of the user.
pub traffic_of_lem :
    (id : ℕ) (l : Live)
    → IsSeparate l
    → IsSeparate (traffic_of id l).1
      × (lookup id (traffic_of id l).1.stats ≡ some (traffic_of id l).0)
      × ((traffic_of id l).1.store ≡ l.store)
unfolding traffic_of
traffic_of_lem id l apart = go (lookup id l.stats) refl
  where
    go :
        (o : Option ℕ)
        → lookup id l.stats ≡ o
        → IsSeparate (found_traffic id l o).1
          × (lookup id (found_traffic id l o).1.stats ≡ some (found_traffic id l o).0)
          × ((found_traffic id l o).1.store ≡ l.store)
    go (some address) e = (apart, e, refl)
    go none e = (
      add_traffic-IsSeparate id fresh_traffic l apart,
      ground (arith, lookup-insert id id l.next_traffic l.stats),
      refl,
    )

abbrev pub changed_traffic : ℕ → (UserTraffic → UserTraffic) → Live → Option UserTraffic → Live
changed_traffic address f l o = elim o [
  | none ↦ l
  | some t ↦ record l { traffics = insert address (f t) l.traffics }
]

pub change_traffic-IsSeparate :
    (address : ℕ) (f : UserTraffic → UserTraffic) (l : Live)
    → IsSeparate l
    → IsSeparate (change_traffic address f l)
unfolding change_traffic
change_traffic-IsSeparate address f l apart = go (lookup address l.traffics)
  where
    go : (o : Option UserTraffic) → IsSeparate (changed_traffic address f l o)
    go none = apart
    go (some t) = λ i a h.
        let (old, there, alone) = apart i a h in
        (old, ground (arith, there, lookup-insert address a (f t) l.traffics), alone)

is_some-clear_awg :
    (a : ℕ) (m : List (ℕ × UserTraffic)) → is_some (lookup a (clear_awg m)) ≡ is_some (lookup a m)
unfolding clear_awg lookup
is_some-clear_awg a [] = refl
is_some-clear_awg a ((b, t) ∷ m) = ground (arith, is_some-clear_awg a m)

pub clear_awg-IsSeparate :
    (l : Live) → IsSeparate l → IsSeparate (record l { traffics = clear_awg l.traffics })
clear_awg-IsSeparate l apart i a h =
    let (old, there, alone) = apart i a h in (old, is_some-clear_awg a l.traffics ∙ there, alone)

pub drop_traffic-IsSeparate :
    (id : ℕ) (s : Store) (l : Live) → IsSeparate l → IsSeparate (drop_traffic id s l)
drop_traffic-IsSeparate id s l apart i a h =
    let (old, there, alone) = apart i a (delete-cases id i a l.stats h).1 in
    (old, there, λ j k. alone j (delete-cases id j a l.stats k).1)

pub reach-IsSeparate : {used : ℕ} {l m : Live} → LiveReach used l m → IsSeparate l → IsSeparate m
reach-IsSeparate {used} =
    reach-P used IsSeparate (λ id l apart. (traffic_of_lem id l apart).0)
      (λ address f l quiet. change_traffic-IsSeparate address f l)
      (λ s previous updated started l apart. apart) clear_awg-IsSeparate drop_traffic-IsSeparate

pub peer-IsSeparate :
    (now : ℕ) (p : PeerStatus) (r : Bool × Live)
    → IsSeparate r.1
    → IsSeparate (observe_peer now p r).1
peer-IsSeparate =
    after_peer 0 IsSeparate (λ id l apart. (traffic_of_lem id l apart).0)
      (λ address f l quiet. change_traffic-IsSeparate address f l)
      (λ s previous updated started l apart. apart) clear_awg-IsSeparate drop_traffic-IsSeparate

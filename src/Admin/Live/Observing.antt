-- ===== src/Admin/Live/Observing.antt =====
-- internal/admin/awg_stats.go: ObserveAWG shows exactly the accounts with an active peer.
use quic_lab.Common.{
  ℕ, ◌≡◌, refl, sym, ap, ◌∙◌, inl, inr, Bool, true, false, not, ◌&&◌, ◌||◌, Option, none, some,
  List, [], ◌∷◌, arith, ◌==◌, if◌then◌else◌, ==_iff, Bool-cases, is_some, if_cases,
}
use quic_lab.Common.Maps.{lookup}
use quic_lab.AwgServer.{awg}
use quic_lab.AwgServer.Worker.{PeerStatus}
use quic_lab.Admin.{User, Store, allows}
use quic_lab.Admin.Live.Steps.{LiveReach}
use quic_lab.Admin.Live.Separate.{
  IsSeparate, traffic_of_lem, clear_awg-IsSeparate, reach-IsSeparate, peer-IsSeparate,
}
use quic_lab.Admin.Live.Online.{
  shown, shown_at, has_awg, may_use, is_of, is_online, traffic_of-has_awg, count_peer-has_awg, Kept,
  note_user-Kept,
}
use quic_lab.Admin.Live.{UserTraffic, Live, traffic_of}
use quic_lab.Admin.Live.Awg.{
  Status, is_active, note_user, count_peer, observe_known, observe_peer, observe_peers, clear_awg,
  is_old, begin_status, save_changed, observe_awg,
}

-- What one peer of the status shows for an account.
abbrev seen_active : ℕ → ℕ → PeerStatus → Store → Bool
seen_active now j p s = is_of j p.id && may_use (lookup j s.users) && is_active now p s.awg_config

abbrev PeerSeen : ℕ → ℕ → PeerStatus → Live → Bool × Live → Type 0
PeerSeen now j p l r = (has_awg j r.1 ≡ (seen_active now j p l.store || has_awg j l)) × Kept l r.1

counted_peer :
    (now id j : ℕ) (p : PeerStatus) (u : User) (changed : Bool) (l : Live)
    → IsSeparate l
    → p.id ≡ some id
    → lookup id l.store.users ≡ some u
    → may_use (some u) ≡ true
    → PeerSeen now j p l (note_user id p u (changed, count_peer now id p (traffic_of id l)))
counted_peer now id j p u changed l apart named found eligible =
    let (apart', mine, store) = traffic_of_lem id l apart in
    let (shows, store') =
      count_peer-has_awg now id j (traffic_of id l).0 p (traffic_of id l).1 apart' mine in
    let (noted, (users, config)) =
      note_user-Kept id p u changed (count_peer now id p (traffic_of id l)) in
    let same_store = store' ∙ store in
    (
      noted j ∙ shows ∙ (rw (store, traffic_of-has_awg id j l apart) (merged refl)),
      (
        λ i. users i ∙ ap (λ (s : Store). may_use (lookup i s.users)) same_store,
        config ∙ ap (λ (s : Store). s.awg_config) same_store,
      ),
    )
  where
    merged :
        {b : Bool}
        → b ≡ is_active now p l.store.awg_config
        → (if id == j then b || has_awg j l else has_awg j l)
          ≡ (seen_active now j p l.store || has_awg j l)
    merged e = elim (Bool-cases (id == j)) [
      | inl same_id ↦
          let found_j : lookup j l.store.users ≡ some u =
            ap (λ i. lookup i l.store.users) (sym ((==_iff id j).0 same_id)) ∙ found in
          rw (e, named, found_j, same_id, eligible) refl
      | inr other ↦ rw (named, other) refl
    ]

unseen :
    (now id j : ℕ) (p : PeerStatus) (s : Store)
    → p.id ≡ some id
    → may_use (lookup id s.users) ≡ false
    → seen_active now j p s ≡ false
unseen now id j p s named barred = elim (Bool-cases (id == j)) [
  | inl same_id ↦
      let barred_j : may_use (lookup j s.users) ≡ false =
        ap (λ i. may_use (lookup i s.users)) (sym ((==_iff id j).0 same_id)) ∙ barred in
      rw (named, same_id, barred_j) refl
  | inr other ↦ rw (named, other) refl
]

known_peer :
    (now id j : ℕ) (p : PeerStatus) (o : Option User) (changed : Bool) (l : Live)
    → IsSeparate l
    → p.id ≡ some id
    → lookup id l.store.users ≡ o
    → PeerSeen now j p l (observe_known now id p o (changed, l))
known_peer now id j p none changed l apart named found =
    (rw (unseen now id j p l.store named (ap may_use found)) refl, (λ i. refl, refl))
known_peer now id j p (some u) changed l apart named found =
    if_cases (PeerSeen now j p l) (u.disabled || not (allows u awg)) _ _
      (λ e. (
        rw (unseen now id j p l.store named (ap may_use found ∙ (rw e refl))) refl,
        (λ i. refl, refl),
      ))
      (λ e. counted_peer now id j p u changed l apart named found (rw e refl))

observe_peer-PeerSeen :
    (now j : ℕ) (p : PeerStatus) (changed : Bool) (l : Live)
    → IsSeparate l
    → PeerSeen now j p l (observe_peer now p (changed, l))
observe_peer-PeerSeen now j p changed l apart = go p.id refl
  where
    seen : Option ℕ → Bool × Live
    seen o = elim o [
      | none ↦ (changed, l)
      | some id ↦ observe_known now id p (lookup id l.store.users) (changed, l)
    ]

    go : (o : Option ℕ) → p.id ≡ o → PeerSeen now j p l (seen o)
    go none named = (rw named refl, (λ i. refl, refl))
    go (some id) named = known_peer now id j p (lookup id l.store.users) changed l apart named refl

is_online-Kept :
    (now j : ℕ) (ps : List PeerStatus) (l m : Live)
    → Kept l m
    → is_online now j ps m.store ≡ is_online now j ps l.store
unfolding is_online
is_online-Kept now j [] l m kept = refl
is_online-Kept now j (p ∷ ps) l m (users, config) =
    rw (is_online-Kept now j ps l m (users, config), users j, config) refl

observe_peers-has_awg :
    (now j : ℕ) (ps : List PeerStatus) (changed : Bool) (l : Live)
    → IsSeparate l
    → has_awg j (observe_peers now ps (changed, l)).1 ≡ (is_online now j ps l.store || has_awg j l)
unfolding observe_peers is_online
observe_peers-has_awg now j [] changed l apart = refl
observe_peers-has_awg now j (p ∷ ps) changed l apart =
    let (shows, kept) = observe_peer-PeerSeen now j p changed l apart in
    let r = observe_peer now p (changed, l) in
    observe_peers-has_awg now j ps r.0 r.1 (peer-IsSeparate now p (changed, l) apart)
    ∙ (rw (is_online-Kept now j ps l r.1 kept, shows) (ground arith))

shown-clear_awg : (a : ℕ) (m : List (ℕ × UserTraffic)) → shown (lookup a (clear_awg m)) ≡ false
unfolding clear_awg lookup
shown-clear_awg a [] = refl
shown-clear_awg a ((b, t) ∷ m) = ground (arith, shown-clear_awg a m)

clear_awg-has_awg :
    (j : ℕ) (l : Live) → has_awg j (record l { traffics = clear_awg l.traffics }) ≡ false
clear_awg-has_awg j l = go (lookup j l.stats)
  where
    go : (o : Option ℕ) → shown_at o (clear_awg l.traffics) ≡ false
    go none = refl
    go (some a) = shown-clear_awg a l.traffics

-- What the beginning of ObserveAWG leaves alone.
Begun : Live → Live → Type 0
Begun l m = ((j : ℕ) → has_awg j m ≡ has_awg j l) × (m.store ≡ l.store) × IsSeparate m

begin_status-Begun : (status : Status) (l : Live) → IsSeparate l → Begun l (begin_status status l)
unfolding Begun
begin_status-Begun status l apart =
    if_cases (Begun l) (not (is_some l.awg_previous) || not (l.awg_started == status.started)) _ _
      (λ e. (λ j. refl, refl, apart)) (λ e. (λ j. refl, refl, apart))

save_changed-has_awg :
    (saved : Bool) (j : ℕ) (r : Bool × Live) → has_awg j (save_changed saved r) ≡ has_awg j r.1
save_changed-has_awg saved j (true, l) = refl
save_changed-has_awg saved j (false, l) = refl

observed_fresh :
    (now j : ℕ) (status : Status) (saved : Bool) (l : Live)
    → IsSeparate l
    → has_awg j l ≡ false
    → has_awg j (save_changed saved (observe_peers now status.peers (false, begin_status status l)))
      ≡ is_online now j status.peers l.store
unfolding Begun
observed_fresh now j status saved l apart none_yet =
    let (shows, store, apart') = begin_status-Begun status l apart in
    save_changed-has_awg saved j (observe_peers now status.peers (false, begin_status status l))
    ∙ observe_peers-has_awg now j status.peers false (begin_status status l) apart'
    ∙ (rw (store, shows j, none_yet) (ground arith))

-- From a store without counted connections, after any calls in any order: once ObserveAWG has read a
-- status, an account is shown with an AWG connection exactly if the status is at most five seconds
-- old, the account is there, is not disabled and has AWG, and the status has a peer of it whose
-- activity is less than the offline time ago.
pub observe_awg-has_awg :
    (used : ℕ) (l m : Live) (now : ℕ) (status : Status) (saved : Bool) (id : ℕ)
    → l.stats ≡ []
    → LiveReach used l m
    → has_awg id (observe_awg now status saved m)
      ≡ (not (is_old now status) && is_online now id status.peers m.store)
unfolding observe_awg lookup
observe_awg-has_awg used l m now status saved id none_yet before =
    if_cases
      (λ x. has_awg id x ≡ (not (is_old now status) && is_online now id status.peers m.store))
      (is_old now status) _ _ (λ e. rw e (clear_awg-has_awg id m))
      (λ e. rw e (
        observed_fresh now id status saved (record m { traffics = clear_awg m.traffics })
          (clear_awg-IsSeparate m apart) (clear_awg-has_awg id m)))
  where
    apart : IsSeparate m
    apart =
        reach-IsSeparate before (λ i a e. let bad : none ≡ some a = rw none_yet at e in absurd cc)

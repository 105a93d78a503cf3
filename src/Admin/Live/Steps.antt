-- ===== src/Admin/Live/Steps.antt =====
-- internal/admin/stats.go and awg_stats.go: any sequence of the calls, and what every step keeps.
use quic_lab.Common.{
  ℕ, ◌≡◌, ◌≢◌, Bool, true, false, not, ◌||◌, Option, none, some, List, [], ◌∷◌, arith, ltb, ◌==◌,
  is_some, if_cases, Result, err, ok,
}
use quic_lab.Common.Maps.{lookup, insert, delete, lookup-insert, lookup-delete}
use quic_lab.Net.{ℤ}
use quic_lab.AwgServer.{awg}
use quic_lab.AwgServer.Worker.{PeerStatus}
use quic_lab.Admin.{User, Store, allows, known}
use quic_lab.Admin.Sessions.{ConnectionState, Crypto, allowed}
use quic_lab.Admin.Live.{
  LiveConnection, UserTraffic, Live, traffic_of, change_traffic, change_user, Tracked, track_user,
  track, add_if_live, is_address, report, left_last, untrack, drop_traffic,
}
use quic_lab.Admin.Live.Awg.{
  Status, count_grown, meet, moved, note_user, previous_of, count_peer, observe_known, observe_peer,
  observe_peers, clear_awg, is_old, begin_status, save_changed, observe_awg,
}

-- A change that does not bring the token back.
abbrev pub Quiet : ℕ → (UserTraffic → UserTraffic) → Type 0
Quiet token f =
    (t : UserTraffic)
    → is_some (lookup token t.live) ≡ false
    → is_some (lookup token (f t).live) ≡ false

-- Steps of the store, during which the token `used` is not drawn again.
pub data LiveStep (used : ℕ) (l : Live) : Live → Type 0 where
  tracks :
      (c : Crypto) (now : ℕ) (cs : ConnectionState) (transport : List ℕ) (connection token : ℕ)
      (path : List ℕ) (saved : Bool)
      → token ≢ used
      → LiveStep used l (track c now cs transport connection token path saved l).1
  reports : (h : Tracked) (now : ℕ) (tx rx : ℤ) → LiveStep used l (report h now tx rx l)
  untracks : (h : Tracked) (path : List ℕ) (saved : Bool) → LiveStep used l (untrack h path saved l)
  observes :
      (now : ℕ) (status : Status) (saved : Bool) → LiveStep used l (observe_awg now status saved l)
  drops : (id : ℕ) (s : Store) → LiveStep used l (drop_traffic id s l)
  changes_store : (s : Store) → LiveStep used l (record l { store = s })

pub data LiveReach (used : ℕ) (l : Live) : Live → Type 0 where
  same_still : LiveReach used l l
  and_live : {m n : Live} → LiveReach used l m → LiveStep used m n → LiveReach used l n

insert_other-Quiet :
    (used token : ℕ) (c : LiveConnection)
    → token ≢ used
    → Quiet used (λ t. record t { live = insert token c t.live })
insert_other-Quiet used token c other t e =
    ground (arith, e, other, lookup-insert token used c t.live)

delete-Quiet : (used token : ℕ) → Quiet used (λ t. record t { live = delete token t.live })
delete-Quiet used token t e = ground (arith, e, lookup-delete token used t.live)

-- A predicate that each way of changing the state keeps.
module _ (used : ℕ) (P : Live → Type 0) (finds : (id : ℕ) (l : Live) → P l → P (traffic_of id l).1)
    (changes : (address : ℕ) (f : UserTraffic → UserTraffic) (l : Live)
      → Quiet used f
      → P l
      → P (change_traffic address f l))
    (keeps : (s : Store) (previous : Option (List (ℕ × PeerStatus))) (updated started : ℕ)
        (l : Live)
      → P l
      → P (record l {
        store = s;
        awg_previous = previous;
        awg_updated = updated;
        awg_started = started;
      }))
    (clears : (l : Live) → P l → P (record l { traffics = clear_awg l.traffics }))
    (drops_one : (id : ℕ) (s : Store) (l : Live) → P l → P (drop_traffic id s l)) where
  with_store : (s : Store) (l : Live) → P l → P (record l { store = s })
  with_store s l p = keeps s l.awg_previous l.awg_updated l.awg_started l p

  after_user : (id : ℕ) (f : User → User) (l : Live) → P l → P (change_user id f l)
  unfolding change_user
  after_user id f l p = go (lookup id l.store.users)
    where
      go :
          (o : Option User)
          → P (elim o [
            | none ↦ l
            | some u ↦ record l { store = record l.store { users = insert id (f u) l.store.users } }
          ])
      go none = p
      go (some u) = with_store (record l.store { users = insert id (f u) l.store.users }) l p

  after_track :
      (c : Crypto) (now : ℕ) (cs : ConnectionState) (transport : List ℕ) (connection token : ℕ)
      (path : List ℕ) (saved : Bool) (l : Live)
      → token ≢ used
      → P l
      → P (track c now cs transport connection token path saved l).1
  unfolding track
  after_track c now cs transport connection token path saved l other p =
      go (allowed c now cs l.store)
    where
      tried : Result ℕ → Option Tracked × Live
      tried r = elim r [
        | err e ↦ (none, l)
        | ok id ↦
            let (t, after) =
              track_user now transport connection token path saved id (traffic_of id l) in
            (some t, after)
      ]

      entered :
          (id : ℕ) (r : ℕ × Live)
          → P r.1
          → P (track_user now transport connection token path saved id r).1
      entered id (address, m) p =
          with_store _ _
            (after_user id _ _ (changes address _ m (insert_other-Quiet used token _ other) p))

      go : (r : Result ℕ) → P (tried r).1
      go (err e) = p
      go (ok id) = entered id (traffic_of id l) (finds id l p)

  after_report : (h : Tracked) (now : ℕ) (tx rx : ℤ) (l : Live) → P l → P (report h now tx rx l)
  unfolding report
  after_report h now tx rx l p =
      if_cases P (is_address h.address (lookup h.id l.stats)) _ _
        (λ e. changes h.address (add_if_live h.token now tx rx) l (λ t e. ground (arith, e)) p)
        (λ e. p)

  after_untrack :
      (h : Tracked) (path : List ℕ) (saved : Bool) (l : Live) → P l → P (untrack h path saved l)
  unfolding untrack
  after_untrack h path saved l p =
      let gone = changes h.address _ l (delete-Quiet used h.token) p in
      if_cases P (left_last h.since (lookup h.id l.store.users)) _ _
        (λ e. with_store _ _ (after_user h.id _ _ gone)) (λ e. gone)

  after_note :
      (id : ℕ) (p : PeerStatus) (u : User) (changed : Bool) (l : Live)
      → P l
      → P (note_user id p u (changed, l)).1
  after_note id p u changed l known =
      if_cases Q (ltb u.last_connected p.handshake) _ _ (λ e. after_user id (meet p) l known)
        (λ e. if_cases Q (moved p u) _ _ (λ x. after_user id _ l known) (λ x. known))
    where
      Q : Bool × Live → Type 0
      Q r = P r.1

  after_count : (now id : ℕ) (p : PeerStatus) (r : ℕ × Live) → P r.1 → P (count_peer now id p r)
  after_count now id p (address, l) known =
      changes address _ _ (λ t e. ground (arith, e))
        (keeps _ _ _ _ _ (
          changes address (count_grown now p (lookup id (previous_of l))) l
            (counted (lookup id (previous_of l))) known))
    where
      counted : (o : Option PeerStatus) → Quiet used (count_grown now p o)
      counted none t e = e
      counted (some old) t e = e

  after_known :
      (now id : ℕ) (p : PeerStatus) (o : Option User) (changed : Bool) (l : Live)
      → P l
      → P (observe_known now id p o (changed, l)).1
  after_known now id p none changed l known = known
  after_known now id p (some u) changed l known =
      if_cases (λ (r : Bool × Live). P r.1) (u.disabled || not (allows u awg)) _ _ (λ e. known)
        (λ e.
          after_note id p u changed _ (after_count now id p (traffic_of id l) (finds id l known)))

  pub after_peer : (now : ℕ) (p : PeerStatus) (r : Bool × Live) → P r.1 → P (observe_peer now p r).1
  after_peer now p (changed, l) known = go p.id
    where
      seen : Option ℕ → Bool × Live
      seen o = elim o [
        | none ↦ (changed, l)
        | some id ↦ observe_known now id p (lookup id l.store.users) (changed, l)
      ]

      go : (o : Option ℕ) → P (seen o).1
      go none = known
      go (some id) = after_known now id p (lookup id l.store.users) changed l known

  after_peers :
      (now : ℕ) (ps : List PeerStatus) (r : Bool × Live) → P r.1 → P (observe_peers now ps r).1
  unfolding observe_peers
  after_peers now [] r known = known
  after_peers now (p ∷ ps) r known =
      after_peers now ps (observe_peer now p r) (after_peer now p r known)

  after_save : (saved : Bool) (r : Bool × Live) → P r.1 → P (save_changed saved r)
  after_save saved (true, l) known = with_store _ l known
  after_save saved (false, l) known = known

  after_begin : (status : Status) (l : Live) → P l → P (begin_status status l)
  after_begin status l known =
      if_cases P (not (is_some l.awg_previous) || not (l.awg_started == status.started)) _ _
        (λ e. keeps _ _ _ _ l known) (λ e. keeps _ _ _ _ l known)

  after_observe :
      (now : ℕ) (status : Status) (saved : Bool) (l : Live)
      → P l
      → P (observe_awg now status saved l)
  unfolding observe_awg
  after_observe now status saved l known =
      let cleared = clears l known in
      if_cases P (is_old now status) _ _ (λ e. cleared)
        (λ e. after_save saved _ (
          after_peers now status.peers
            (false, begin_status status (record l { traffics = clear_awg l.traffics }))
            (after_begin status _ cleared)))

  pub step-P : {l m : Live} → LiveStep used l m → P l → P m
  step-P {l} (tracks c now cs transport connection token path saved other) p =
      after_track c now cs transport connection token path saved l other p
  step-P {l} (reports h now tx rx) p = after_report h now tx rx l p
  step-P {l} (untracks h path saved) p = after_untrack h path saved l p
  step-P {l} (observes now status saved) p = after_observe now status saved l p
  step-P {l} (drops id s) p = drops_one id s l p
  step-P {l} (changes_store s) p = with_store s l p

  pub reach-P : {l m : Live} → LiveReach used l m → P l → P m
  reach-P same_still p = p
  reach-P (and_live r step) p = step-P step (reach-P r p)

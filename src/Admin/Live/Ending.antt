-- ===== src/Admin/Live/Ending.antt =====
-- internal/admin/stats.go and awg_stats.go: what a connection reports behind its end counts nothing.
use quic_lab.Common.{
  ℕ, ◌<◌, ◌≡◌, refl, ap, ◌∙◌, Bool, false, ◌&&◌, Option, none, some, List, [], ◌∷◌, arith, is_some,
  if_cases,
}
use quic_lab.Common.Maps.{lookup, insert, delete, lookup-insert, lookup-delete}
use quic_lab.Net.{ℤ}
use quic_lab.Admin.{User, Store}
use quic_lab.Admin.Sessions.{ConnectionState, Crypto}
use quic_lab.Admin.Live.Addresses.{IsMade, reach-IsMade, reach-next, track-old}
use quic_lab.Admin.Live.Steps.{Quiet, LiveReach, reach-P}
use quic_lab.Admin.Live.{
  UserTraffic, fresh_traffic, Live, add_traffic, traffic_of, change_traffic, change_user, Tracked,
  track, add_if_live, is_address, report, left_last, untrack, drop_traffic,
}
use quic_lab.Admin.Live.Awg.{clear_awg}

abbrev is_tracked : ℕ → Option UserTraffic → Bool
is_tracked token none = false
is_tracked token (some t) = is_some (lookup token t.live)

-- Whether a report of the connection counts.
abbrev heard : Tracked → Live → Bool
heard h l =
    is_address h.address (lookup h.id l.stats) && is_tracked h.token (lookup h.address l.traffics)

abbrev pub IsEnded : Tracked → Live → Type 0
IsEnded h l = (h.address < l.next_traffic) × (heard h l ≡ false)

traffic_of-IsEnded : (h : Tracked) (id : ℕ) (l : Live) → IsEnded h l → IsEnded h (traffic_of id l).1
unfolding traffic_of
traffic_of-IsEnded h id l (old, silent) = go (lookup id l.stats) refl
  where
    found : Option ℕ → ℕ × Live
    found o = elim o [
      | some address ↦ (address, l)
      | none ↦ (l.next_traffic, add_traffic id fresh_traffic l)
    ]

    go : (o : Option ℕ) → lookup id l.stats ≡ o → IsEnded h (found o).1
    go (some address) e = (old, silent)
    go none e = (
      omega (arith, old),
      ground (
        arith,
        old,
        silent,
        lookup-insert id h.id l.next_traffic l.stats,
        lookup-insert l.next_traffic h.address fresh_traffic l.traffics,
      ),
    )

change_traffic-IsEnded :
    (h : Tracked) (address : ℕ) (f : UserTraffic → UserTraffic) (l : Live)
    → Quiet h.token f
    → IsEnded h l
    → IsEnded h (change_traffic address f l)
unfolding change_traffic
change_traffic-IsEnded h address f l quiet (old, silent) = go (lookup address l.traffics) refl
  where
    go :
        (o : Option UserTraffic)
        → lookup address l.traffics ≡ o
        → IsEnded h
            (elim o [ none ↦ l | some t ↦ record l { traffics = insert address (f t) l.traffics } ])
    go none e = (old, silent)
    go (some t) e =
        (old, ground (arith, e, quiet t, lookup-insert address h.address (f t) l.traffics))

lookup-clear_awg :
    (token address : ℕ) (m : List (ℕ × UserTraffic))
    → is_tracked token (lookup address (clear_awg m)) ≡ is_tracked token (lookup address m)
unfolding clear_awg lookup
lookup-clear_awg token address [] = refl
lookup-clear_awg token address ((a, t) ∷ m) = ground (arith, lookup-clear_awg token address m)

reach-IsEnded : (h : Tracked) {l m : Live} → LiveReach h.token l m → IsEnded h l → IsEnded h m
reach-IsEnded h =
    reach-P h.token (IsEnded h) (traffic_of-IsEnded h)
      (λ address f l quiet. change_traffic-IsEnded h address f l quiet)
      (λ s previous updated started l ended. ended)
      (λ l ended. (
        ended.0,
        ap (λ x. is_address h.address (lookup h.id l.stats) && x)
              (lookup-clear_awg h.token h.address l.traffics)
            ∙ ended.1,
      ))
      (λ id s l ended. (ended.0, ground (arith, ended.1, lookup-delete id h.id l.stats)))

-- How a connection ends: by its second function, or as its account is deleted.
pub data EndStep (h : Tracked) (l : Live) : Live → Type 0 where
  untracked : (path : List ℕ) (saved : Bool) → EndStep h l (untrack h path saved l)
  deleted : (s : Store) → EndStep h l (drop_traffic h.id s l)

change_user-IsEnded :
    (h : Tracked) (id : ℕ) (f : User → User) (l : Live)
    → IsEnded h l
    → IsEnded h (change_user id f l)
unfolding change_user
change_user-IsEnded h id f l ended = go (lookup id l.store.users)
  where
    go :
        (o : Option User)
        → IsEnded h (elim o [
          | none ↦ l
          | some u ↦ record l { store = record l.store { users = insert id (f u) l.store.users } }
        ])
    go none = ended
    go (some u) = ended

take_out-IsEnded :
    (h : Tracked) (l : Live)
    → h.address < l.next_traffic
    → IsEnded h (change_traffic h.address (λ t. record t { live = delete h.token t.live }) l)
unfolding change_traffic
take_out-IsEnded h l old = go (lookup h.address l.traffics) refl
  where
    out : UserTraffic → UserTraffic
    out t = record t { live = delete h.token t.live }

    go :
        (o : Option UserTraffic)
        → lookup h.address l.traffics ≡ o
        → IsEnded h (elim o [
          | none ↦ l
          | some t ↦ record l { traffics = insert h.address (out t) l.traffics }
        ])
    go none e = (old, rw e (ground arith))
    go (some t) e = (
      old,
      ground (
        arith,
        lookup-insert h.address h.address (out t) l.traffics,
        lookup-delete h.token h.token t.live,
      ),
    )

end-IsEnded : {h : Tracked} {l m : Live} → h.address < l.next_traffic → EndStep h l m → IsEnded h m
unfolding untrack
end-IsEnded {h} {l} old (untracked path saved) =
    let gone = take_out-IsEnded h l old in
    if_cases (IsEnded h) (left_last h.since (lookup h.id l.store.users)) _ _
      (λ e. change_user-IsEnded h h.id _ _ gone) (λ e. gone)
end-IsEnded {h} {l} old (deleted s) = (old, ground (arith, lookup-delete h.id h.id l.stats))

insert_same :
    (k : ℕ) (t : UserTraffic) (m : List (ℕ × UserTraffic)) → lookup k m ≡ some t → insert k t m ≡ m
unfolding lookup insert
insert_same k t [] e = cc
insert_same k t ((j, u) ∷ m) e = ground (arith, insert_same k t m)

report-IsEnded :
    (h : Tracked) (now : ℕ) (tx rx : ℤ) (l : Live) → IsEnded h l → report h now tx rx l ≡ l
unfolding report change_traffic
report-IsEnded h now tx rx l (old, silent) =
    if_cases (λ x. x ≡ l) (is_address h.address (lookup h.id l.stats)) _ _
      (λ e. go (lookup h.address l.traffics) refl (rw e at silent)) (λ e. refl)
  where
    go :
        (o : Option UserTraffic)
        → lookup h.address l.traffics ≡ o
        → is_tracked h.token (lookup h.address l.traffics) ≡ false
        → (elim o [
          | none ↦ l
          | some t ↦ record l {
            traffics = insert h.address (add_if_live h.token now tx rx t) l.traffics;
          }
        ])
          ≡ l
    go none e k = refl
    go (some t) e k =
        let off : is_some (lookup h.token t.live) ≡ false = rw e at k in
        rw off (ap (λ m. record l { traffics = m }) (insert_same h.address t l.traffics e))

-- From a store without counted connections, after any calls, a client is let in by Track. After any
-- further calls its connection ends, by the second function that Track returned or because its account
-- is deleted. From then on, after any calls in any order, and while Track draws the token of no other
-- connection again, its reports change nothing: they count for no account.
pub report-ended :
    (h : Tracked) (l m n o p q : Live) (c : Crypto) (began : ℕ) (cs : ConnectionState)
    (transport : List ℕ) (connection token : ℕ) (path : List ℕ) (saved : Bool) (now : ℕ) (tx rx : ℤ)
    → l.stats ≡ []
    → LiveReach h.token l m
    → track c began cs transport connection token path saved m ≡ (some h, n)
    → LiveReach h.token n o
    → EndStep h o p
    → LiveReach h.token p q
    → report h now tx rx q ≡ q
unfolding lookup
report-ended h l m n o p q c began cs transport connection token path saved now tx rx none_yet
      before entered during ends after =
    let made : IsMade l =
      λ id address e. let bad : none ≡ some address = rw none_yet at e in absurd cc in
    let drawn =
      track-old h c began cs transport connection token path saved m (reach-IsMade before made)
        (ap (λ (r : Option Tracked × Live). r.0) entered) in
    let old : h.address < n.next_traffic =
      omega (arith, drawn, ap (λ (r : Option Tracked × Live). r.1.next_traffic) entered) in
    report-IsEnded h now tx rx q
      (reach-IsEnded h after (end-IsEnded (reach-next h.address during old) ends))

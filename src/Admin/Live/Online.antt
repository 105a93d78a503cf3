-- ===== src/Admin/Live/Online.antt =====
-- internal/admin/awg_stats.go: which accounts are shown with an AWG connection.
use quic_lab.Common.{
  ℕ, ◌≡◌, refl, sym, ap, ◌∙◌, inl, inr, Bool, true, false, not, ◌&&◌, ◌||◌, Option, none, some,
  List, [], ◌∷◌, arith, ltb, ◌==◌, if◌then◌else◌, ==_iff, Bool-cases, is_some, if_cases,
}
use quic_lab.Common.Maps.{lookup, insert, lookup-insert, insert_hit, insert_miss}
use quic_lab.AwgServer.{awg}
use quic_lab.AwgServer.Worker.{PeerStatus}
use quic_lab.Admin.{User, Store, allows}
use quic_lab.Admin.Live.Separate.{IsSeparate, changed_traffic, change_traffic-IsSeparate}
use quic_lab.Admin.Live.{
  UserTraffic, fresh_traffic, Live, add_traffic, traffic_of, change_traffic, change_user,
}
use quic_lab.Admin.Live.Awg.{
  count_grown, is_active, confirm, meet, moved, note_user, previous_of, remember, count_peer,
}

abbrev pub shown : Option UserTraffic → Bool
shown none = false
shown (some t) = is_some t.awg_live

abbrev pub shown_at : Option ℕ → List (ℕ × UserTraffic) → Bool
shown_at none m = false
shown_at (some a) m = shown (lookup a m)

-- Whether the account is shown with an AWG connection.
abbrev pub has_awg : ℕ → Live → Bool
has_awg id l = shown_at (lookup id l.stats) l.traffics

abbrev pub may_use : Option User → Bool
may_use none = false
may_use (some u) = not (u.disabled || not (allows u awg))

abbrev pub is_of : ℕ → Option ℕ → Bool
is_of id none = false
is_of id (some i) = i == id

-- The account is there, is not disabled and has AWG, and a peer of it was active.
unfoldable pub is_online : ℕ → ℕ → List PeerStatus → Store → Bool
is_online now id [] s = false
is_online now id (p ∷ ps) s =
    (is_of id p.id && may_use (lookup id s.users) && is_active now p s.awg_config)
    || is_online now id ps s

pub traffic_of-has_awg :
    (id j : ℕ) (l : Live) → IsSeparate l → has_awg j (traffic_of id l).1 ≡ has_awg j l
unfolding traffic_of
traffic_of-has_awg id j l apart = go (lookup id l.stats) refl
  where
    found : Option ℕ → ℕ × Live
    found o = elim o [
      | some address ↦ (address, l)
      | none ↦ (l.next_traffic, add_traffic id fresh_traffic l)
    ]

    old :
        (o : Option ℕ)
        → lookup j l.stats ≡ o
        → shown_at o (insert l.next_traffic fresh_traffic l.traffics) ≡ shown_at o l.traffics
    old none e = refl
    old (some a) e =
        ground (arith, (apart j a e).0, lookup-insert l.next_traffic a fresh_traffic l.traffics)

    go : (o : Option ℕ) → lookup id l.stats ≡ o → has_awg j (found o).1 ≡ has_awg j l
    go (some address) e = refl
    go none e = elim (Bool-cases (id == j)) [
      | inl same_id ↦
          let none_yet : lookup j l.stats ≡ none =
            ap (λ i. lookup i l.stats) (sym ((==_iff id j).0 same_id)) ∙ e in
          rw
            (
              insert_hit id j l.next_traffic l.stats same_id,
              none_yet,
              insert_hit l.next_traffic l.next_traffic fresh_traffic l.traffics (ground arith),
            )
            refl
      | inr other ↦ rw (insert_miss id j l.next_traffic l.stats other) (old (lookup j l.stats) refl)
    ]

-- The change of one account's traffic shows in that account only.
change_traffic-has_awg :
    (id j address : ℕ) (f : UserTraffic → UserTraffic) (l : Live) (after : Bool → Bool)
    → IsSeparate l
    → lookup id l.stats ≡ some address
    → ((t : UserTraffic) → is_some (f t).awg_live ≡ after (is_some t.awg_live))
    → has_awg j (change_traffic address f l)
      ≡ (if id == j then after (has_awg j l) else has_awg j l)
unfolding change_traffic
change_traffic-has_awg id j address f l after apart mine effect =
    go (lookup address l.traffics) refl
  where
    go :
        (o : Option UserTraffic)
        → lookup address l.traffics ≡ o
        → has_awg j (changed_traffic address f l o)
          ≡ (if id == j then after (has_awg j l) else has_awg j l)
    go none e =
        let there : is_some (lookup address l.traffics) ≡ true = (apart id address mine).1 in
        let bad : false ≡ true = rw e at there in absurd cc
    go (some t) e = elim (Bool-cases (id == j)) [
      | inl same_id ↦
          let mine_j : lookup j l.stats ≡ some address =
            ap (λ i. lookup i l.stats) (sym ((==_iff id j).0 same_id)) ∙ mine in
          rw (same_id, mine_j, e, insert_hit address address (f t) l.traffics (ground arith))
            (effect t)
      | inr other ↦ rw other (elsewhere (lookup j l.stats) refl other)
    ]
      where
        elsewhere :
            (o : Option ℕ)
            → lookup j l.stats ≡ o
            → (id == j) ≡ false
            → shown_at o (insert address (f t) l.traffics) ≡ shown_at o l.traffics
        elsewhere none k other = refl
        elsewhere (some a) k other =
            rw
              (insert_miss address a (f t) l.traffics
                (ground (arith, (apart id address mine).2 j, k)))
              refl

change_traffic-kept :
    (address : ℕ) (f : UserTraffic → UserTraffic) (l : Live)
    → ((change_traffic address f l).stats ≡ l.stats)
      × ((change_traffic address f l).store ≡ l.store)
unfolding change_traffic
change_traffic-kept address f l = go (lookup address l.traffics)
  where
    go :
        (o : Option UserTraffic)
        → ((changed_traffic address f l o).stats ≡ l.stats)
          × ((changed_traffic address f l o).store ≡ l.store)
    go none = (refl, refl)
    go (some t) = (refl, refl)

pub count_peer-has_awg :
    (now id j address : ℕ) (p : PeerStatus) (l : Live)
    → IsSeparate l
    → lookup id l.stats ≡ some address
    → (has_awg j (count_peer now id p (address, l))
        ≡ (if id == j then is_active now p l.store.awg_config || has_awg j l else has_awg j l))
      × ((count_peer now id p (address, l)).store ≡ l.store)
count_peer-has_awg now id j address p l apart mine = (
  second_change ∙ (rw first_change refl),
  (change_traffic-kept address (confirm now p l.store.awg_config) (remember id p counted)).1
      ∙ (change_traffic-kept address grow l).1,
)
  where
    grow : UserTraffic → UserTraffic
    grow = count_grown now p (lookup id (previous_of l))

    counted : Live
    counted = change_traffic address grow l

    same_shown :
        (o : Option PeerStatus) (t : UserTraffic)
        → is_some (count_grown now p o t).awg_live ≡ is_some t.awg_live
    same_shown none t = refl
    same_shown (some old) t = refl

    first_change : has_awg j counted ≡ has_awg j l
    first_change =
        change_traffic-has_awg id j address grow l (λ b. b) apart mine
          (same_shown (lookup id (previous_of l)))
        ∙ (ground arith)

    second_change : has_awg j (count_peer now id p (address, l)) ≡ (
        if id == j
        then is_active now p l.store.awg_config || has_awg j counted
        else has_awg j counted)
    second_change =
        change_traffic-has_awg id j address (confirm now p l.store.awg_config)
          (remember id p counted) (λ b. is_active now p l.store.awg_config || b)
          (change_traffic-IsSeparate address grow l apart)
          (ap (lookup id) (change_traffic-kept address grow l).0 ∙ mine) (λ t. ground arith)

-- What the loop reads of the accounts.
abbrev pub Kept : Live → Live → Type 0
Kept l m =
    ((j : ℕ) → may_use (lookup j m.store.users) ≡ may_use (lookup j l.store.users))
    × (m.store.awg_config ≡ l.store.awg_config)

change_user-Kept :
    (id : ℕ) (f : User → User) (l : Live)
    → ((u : User) → may_use (some (f u)) ≡ may_use (some u))
    → ((j : ℕ) → has_awg j (change_user id f l) ≡ has_awg j l) × Kept l (change_user id f l)
unfolding change_user
change_user-Kept id f l same_use = go (lookup id l.store.users) refl
  where
    changed : Option User → Live
    changed o = elim o [
      | none ↦ l
      | some u ↦ record l { store = record l.store { users = insert id (f u) l.store.users } }
    ]

    go :
        (o : Option User)
        → lookup id l.store.users ≡ o
        → ((j : ℕ) → has_awg j (changed o) ≡ has_awg j l) × Kept l (changed o)
    go none e = (λ j. refl, (λ j. refl, refl))
    go (some u) e = (λ j. refl, (used, refl))
      where
        used :
            (j : ℕ)
            → may_use (lookup j (insert id (f u) l.store.users)) ≡ may_use (lookup j l.store.users)
        used j = elim (Bool-cases (id == j)) [
          | inl same_id ↦ rw (insert_hit id j (f u) l.store.users same_id) (
              same_use u
              ∙ ap may_use
                  (sym (ap (λ i. lookup i l.store.users) (sym ((==_iff id j).0 same_id)) ∙ e)))
          | inr other ↦ rw (insert_miss id j (f u) l.store.users other) refl
        ]

pub note_user-Kept :
    (id : ℕ) (p : PeerStatus) (u : User) (changed : Bool) (l : Live)
    → ((j : ℕ) → has_awg j (note_user id p u (changed, l)).1 ≡ has_awg j l)
      × Kept l (note_user id p u (changed, l)).1
note_user-Kept id p u changed l =
    if_cases Q (ltb u.last_connected p.handshake) _ _
      (λ e. change_user-Kept id (meet p) l (λ u. refl))
      (λ e.
        if_cases Q (moved p u) _ _ (λ x. change_user-Kept id _ l (λ u. refl))
          (λ x. (λ j. refl, (λ j. refl, refl))))
  where
    Q : Bool × Live → Type 0
    Q r = ((j : ℕ) → has_awg j r.1 ≡ has_awg j l) × Kept l r.1

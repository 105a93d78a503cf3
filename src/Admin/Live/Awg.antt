-- ===== src/Admin/Live/Awg.antt =====
-- internal/admin/awg_stats.go: what the store makes of the status that the AWG worker writes.
use quic_lab.Common.{
  ℕ, ◌-◌, ◌*◌, ◌^◌, Bool, true, false, not, ◌&&◌, ◌||◌, Option, none, some, List, [], ◌∷◌, ◌++◌,
  ltb, leb, ◌==◌, if◌then◌else◌, is_some,
}
use quic_lab.Common.Bytes.{same}
use quic_lab.Common.Maps.{lookup, insert}
use quic_lab.Net.{ℤ, pos, negsuc}
use quic_lab.AwgServer.{Config, second, offline_after, awg, enabled}
use quic_lab.AwgServer.Worker.{PeerStatus}
use quic_lab.Admin.{User, allows}
use quic_lab.Admin.Traffic.{add}
use quic_lab.Admin.Live.{
  UserTraffic, Live, source_ip, unix, traffic_of, change_traffic, change_user, save_live, fixed,
}

pub record Status : Type 0 where
  pub started : ℕ
  pub updated : ℕ
  pub peers : List PeerStatus

-- int of a uint64.
abbrev pub signed : ℕ → ℤ
signed n = if ltb n (2 ^ 63) then pos n else negsuc (2 ^ 64 - n - 1)

-- What a counter has grown by, or nothing when it was reset.
abbrev pub grown : ℕ → ℕ → ℤ
grown now_at before = if leb before now_at then signed (now_at - before) else pos 0

abbrev pub count_grown : ℕ → PeerStatus → Option PeerStatus → UserTraffic → UserTraffic
count_grown now p none t = t
count_grown now p (some old) t = record t {
  buckets = add (unix now) (grown p.tx old.tx) (grown p.rx old.rx) t.buckets;
}

-- The text "AmneziaWG".
abbrev pub amnezia : List ℕ
amnezia = 65 ∷ 109 ∷ 110 ∷ 101 ∷ 122 ∷ 105 ∷ 97 ∷ 87 ∷ 71 ∷ []

-- The text "AmneziaWG · канал подтверждён".
abbrev pub confirmed_channel : List ℕ
confirmed_channel =
    amnezia
    ++ (32 ∷ 194 ∷ 183 ∷ 32 ∷ 208 ∷ 186 ∷ 208 ∷ 176 ∷ 208 ∷ 189 ∷ 208 ∷ 176 ∷ 208 ∷ 187 ∷ 32 ∷ 208
        ∷ 191 ∷ 208 ∷ 190 ∷ 208 ∷ 180 ∷ 209 ∷ 130 ∷ 208 ∷ 178 ∷ 208 ∷ 181 ∷ 209 ∷ 128 ∷ 208 ∷ 182
        ∷ 208 ∷ 180 ∷ 209 ∷ 145 ∷ 208 ∷ 189 ∷ [])

abbrev pub is_active : ℕ → PeerStatus → Option Config → Bool
is_active now p none = false
is_active now p (some c) = not (p.activity == 0) && ltb (now - p.activity) (offline_after c)

abbrev pub confirm : ℕ → PeerStatus → Option Config → UserTraffic → UserTraffic
confirm now p c t =
    if is_active now p c
    then record t {
      awg_live = some (record {
        transport = confirmed_channel;
        connected = p.handshake;
        peer = fixed p.source;
      });
    }
    else t

abbrev pub meet : PeerStatus → User → User
meet p u = record u {
  last_connected = p.handshake;
  last_transport = amnezia;
  last_source = source_ip p.source;
}

abbrev pub moved : PeerStatus → User → Bool
moved p u =
    same u.last_transport amnezia
    && not (same u.last_source (source_ip p.source))
    && not (p.handshake == 0)

-- The end of the loop's body, and `changed`.
abbrev pub note_user : ℕ → PeerStatus → User → Bool × Live → Bool × Live
note_user id p u (changed, l) =
    if ltb u.last_connected p.handshake
    then (true, change_user id (meet p) l)
    else if moved p u
    then (true, change_user id (λ u. record u { last_source = source_ip p.source }) l)
    else (changed, l)

abbrev pub previous_of : Live → List (ℕ × PeerStatus)
previous_of l = elim l.awg_previous [ none ↦ [] | some m ↦ m ]

abbrev pub remember : ℕ → PeerStatus → Live → Live
remember id p l = record l { awg_previous = some (insert id p (previous_of l)) }

abbrev pub count_peer : ℕ → ℕ → PeerStatus → ℕ × Live → Live
count_peer now id p (address, l) =
    change_traffic address (confirm now p l.store.awg_config)
      (remember id p (change_traffic address (count_grown now p (lookup id (previous_of l))) l))

abbrev pub observe_known : ℕ → ℕ → PeerStatus → Option User → Bool × Live → Bool × Live
observe_known now id p none (changed, l) = (changed, l)
observe_known now id p (some u) (changed, l) =
    if u.disabled || not (allows u awg)
    then (changed, l)
    else note_user id p u (changed, count_peer now id p (traffic_of id l))

-- One round of the loop of ObserveAWG; an ID that is no user's may be none.
abbrev pub observe_peer : ℕ → PeerStatus → Bool × Live → Bool × Live
observe_peer now p (changed, l) = elim p.id [
  | none ↦ (changed, l)
  | some id ↦ observe_known now id p (lookup id l.store.users) (changed, l)
]

unfoldable pub observe_peers : ℕ → List PeerStatus → Bool × Live → Bool × Live
unfolding lookup insert traffic_of change_traffic change_user source_ip add offline_after enabled
    same
observe_peers now [] r = r
observe_peers now (p ∷ ps) r = observe_peers now ps (observe_peer now p r)

-- The traffic of a deleted user, which the code no longer finds, is cleared as well; nothing shows it.
unfoldable pub clear_awg : List (ℕ × UserTraffic) → List (ℕ × UserTraffic)
clear_awg [] = []
clear_awg ((address, t) ∷ m) = (address, record t { awg_live = none }) ∷ clear_awg m

abbrev pub is_old : ℕ → Status → Bool
is_old now status = status.updated == 0 || ltb (5 * second) (now - status.updated)

-- The counters of another start of the worker are forgotten.
abbrev pub begin_status : Status → Live → Live
begin_status status l =
    if not (is_some l.awg_previous) || not (l.awg_started == status.started)
    then record l {
      awg_previous = some [];
      awg_started = status.started;
      awg_updated = status.updated;
    }
    else record l { awg_updated = status.updated }

abbrev pub save_changed : Bool → Bool × Live → Live
save_changed saved (changed, l) = if changed then save_live saved l else l

-- ObserveAWG.
unfoldable pub observe_awg : ℕ → Status → Bool → Live → Live
unfolding clear_awg observe_peers
observe_awg now status saved l =
    let cleared = record l { traffics = clear_awg l.traffics } in
    if is_old now status
    then cleared
    else save_changed saved (observe_peers now status.peers (false, begin_status status cleared))

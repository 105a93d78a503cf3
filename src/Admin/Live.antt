-- ===== src/Admin/Live.antt =====
-- internal/admin/stats.go: the connections that are counted. A userTraffic is shared by the map of
-- the users and by the functions that Track returned, so it stands under an address of its own. The
-- entry "awg" of its map, which no random token is, is the field `awg_live`. A time is its
-- nanoseconds since the zero time.
pub mod Awg
pub mod Steps
pub mod Addresses
pub mod Separate
pub mod Online
pub mod Observing
pub mod Ending
use quic_lab.Common.{
  ℕ, ◌+◌, ◌-◌, ◌/◌, Bool, false, Option, none, some, List, [], ◌==◌, if◌then◌else◌, is_some, err,
  ok,
}
use quic_lab.Common.Maps.{lookup, insert, delete}
use quic_lab.Net.{ℤ, split_host_port}
use quic_lab.AwgServer.{second}
use quic_lab.AwgServer.Worker.{PeerStatus}
use quic_lab.Admin.{User, Store, save}
use quic_lab.Admin.Sessions.{ConnectionState, Crypto, allowed}
use quic_lab.Admin.Traffic.{Bucket, add, empty_buckets}

-- What the function `peer` tells: the path of a transport at the time, or a text.
pub data PeerPath : Type 0 where
  path_of : ℕ → PeerPath
  fixed : List ℕ → PeerPath

pub record LiveConnection : Type 0 where
  pub transport : List ℕ
  pub connected : ℕ
  pub peer : PeerPath

pub record UserTraffic : Type 0 where
  pub buckets : List Bucket
  pub live : List (ℕ × LiveConnection)
  pub awg_live : Option LiveConnection

abbrev pub fresh_traffic : UserTraffic
fresh_traffic = record { buckets = empty_buckets; live = []; awg_live = none }

-- The accounts and the fields stats, awgPrevious, awgUpdated and awgStarted of Store.
pub record Live : Type 0 where
  pub store : Store
  pub traffics : List (ℕ × UserTraffic)
  pub next_traffic : ℕ
  pub stats : List (ℕ × ℕ)
  pub awg_previous : Option (List (ℕ × PeerStatus))
  pub awg_updated : ℕ
  pub awg_started : ℕ

unfoldable pub source_ip : List ℕ → List ℕ
unfolding split_host_port
source_ip peer = elim (split_host_port peer) [ none ↦ peer | some (host, port) ↦ host ]

-- Time.Unix; the zero time is the first second of the year 1.
abbrev pub unix : ℕ → ℕ
unix now = now / second - 62_135_596_800

abbrev pub add_traffic : ℕ → UserTraffic → Live → Live
add_traffic id t l = record l {
  traffics = insert l.next_traffic t l.traffics;
  stats = insert id l.next_traffic l.stats;
  next_traffic = l.next_traffic + 1;
}

-- The address of the user's traffic, made when there is none.
unfoldable pub traffic_of : ℕ → Live → ℕ × Live
unfolding lookup insert
traffic_of id l = elim (lookup id l.stats) [
  | some address ↦ (address, l)
  | none ↦ (l.next_traffic, add_traffic id fresh_traffic l)
]

unfoldable pub change_traffic : ℕ → (UserTraffic → UserTraffic) → Live → Live
unfolding lookup insert
change_traffic address f l = elim (lookup address l.traffics) [
  | none ↦ l
  | some t ↦ record l { traffics = insert address (f t) l.traffics }
]

unfoldable pub change_user : ℕ → (User → User) → Live → Live
unfolding lookup insert
change_user id f l = elim (lookup id l.store.users) [
  | none ↦ l
  | some u ↦ record l { store = record l.store { users = insert id (f u) l.store.users } }
]

abbrev pub save_live : Bool → Live → Live
save_live saved l = record l { store = save saved l.store }

-- What the two functions that Track returns hold.
pub record Tracked : Type 0 where
  pub id : ℕ
  pub address : ℕ
  pub token : ℕ
  pub since : ℕ

abbrev pub saw : ℕ → List ℕ → List ℕ → User → User
saw now transport path u = record u {
  last_connected = now;
  last_transport = transport;
  last_source = source_ip path;
}

abbrev pub track_user : ℕ → List ℕ → ℕ → ℕ → List ℕ → Bool → ℕ → ℕ × Live → Tracked × Live
track_user now transport connection token path saved id (address, l) =
    let c : LiveConnection = record {
      transport = transport;
      connected = now;
      peer = path_of connection;
    } in
    let after : Live =
      change_user id (saw now transport path)
        (change_traffic address (λ t. record t { live = insert token c t.live }) l) in
    (record { id = id; address = address; token = token; since = now }, save_live saved after)

-- Track; `path` is what the transport tells as its peer, `saved` whether the file was written.
unfoldable pub track :
    Crypto → ℕ → ConnectionState → List ℕ → ℕ → ℕ → List ℕ → Bool → Live → Option Tracked × Live
unfolding allowed traffic_of change_traffic change_user source_ip insert
track c now cs transport connection token path saved l = elim (allowed c now cs l.store) [
  | err e ↦ (none, l)
  | ok id ↦
      let (t, after) = track_user now transport connection token path saved id (traffic_of id l) in
      (some t, after)
]

abbrev pub add_if_live : ℕ → ℕ → ℤ → ℤ → UserTraffic → UserTraffic
add_if_live token now tx rx t =
    if is_some (lookup token t.live)
    then record t { buckets = add (unix now) tx rx t.buckets }
    else t

abbrev pub is_address : ℕ → Option ℕ → Bool
is_address address none = false
is_address address (some a) = a == address

-- The first function that Track returns.
unfoldable pub report : Tracked → ℕ → ℤ → ℤ → Live → Live
unfolding lookup change_traffic add
report h now tx rx l =
    if is_address h.address (lookup h.id l.stats)
    then change_traffic h.address (add_if_live h.token now tx rx) l
    else l

abbrev pub leave_source : ℕ → List ℕ → User → User
leave_source since path u =
    if u.last_connected == since then record u { last_source = source_ip path } else u

abbrev pub left_last : ℕ → Option User → Bool
left_last since none = false
left_last since (some u) = u.last_connected == since

-- The second one, the body of once.Do.
unfoldable pub untrack : Tracked → List ℕ → Bool → Live → Live
unfolding lookup delete change_traffic change_user source_ip
untrack h path saved l =
    let gone = change_traffic h.address (λ t. record t { live = delete h.token t.live }) l in
    if left_last h.since (lookup h.id l.store.users)
    then save_live saved (change_user h.id (leave_source h.since path) gone)
    else gone

-- The line of Delete that drops the traffic, with the accounts as Delete left them.
abbrev pub drop_traffic : ℕ → Store → Live → Live
drop_traffic id s l = record l { store = s; stats = delete id l.stats }

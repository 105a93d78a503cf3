-- ===== src/Examples/Live.antt =====
-- internal/admin/stats.go and awg_stats.go at concrete inputs: a client is tracked, and the worker
-- reports its peer.
use quic_lab.Common.{ℕ, ◌+◌, ◌*◌, ◌^◌, ◌≡◌, refl, true, false, not, ◌&&◌, none, some, List, [], ◌∷◌}
use quic_lab.Common.Bytes.{same}
use quic_lab.Common.Maps.{lookup, insert}
use quic_lab.Net.{split_host_port, pos}
use quic_lab.AwgServer.{second, offline_after, awg, enabled}
use quic_lab.Admin.{User}
use quic_lab.Admin.Sessions.{ConnectionState, Crypto, allowed}
use quic_lab.Admin.Traffic.{Bucket, add, snapshot}
use quic_lab.Admin.Live.{
  Live, source_ip, traffic_of, change_traffic, change_user, Tracked, track, report, untrack,
}
use quic_lab.Admin.Live.Awg.{Status, observe_peers, clear_awg, is_old, observe_awg}
use quic_lab.Admin.Live.Steps.{reports, same_still, and_live}
use quic_lab.Examples.Accounts.{worker}
use quic_lab.Admin.Live.Online.{has_awg, is_online}
use quic_lab.Admin.Live.Observing.{observe_awg-has_awg}
use quic_lab.Admin.Live.Ending.{report-ended, untracked}

abbrev anna : User
anna = record {
  id = 17;
  name = b'a' ∷ [];
  disabled = false;
  protocols = none;
  peer = none;
  last_connected = 0;
  last_transport = [];
  last_source = [];
  created = 0;
  expires = 2 ^ 70;
  certificate = 17 ∷ [];
  key = [];
}

abbrev start_live : Live
start_live = record {
  store = record {
    awg_config = none;
    identity = none;
    users = (17, anna) ∷ [];
    ca_expires = 2 ^ 70;
    ca_text = [];
    active = [];
    session_protocols = [];
    disk = record { identity = none; users = [] };
    closed = [];
  };
  traffics = [];
  next_traffic = 0;
  stats = [];
  awg_previous = none;
  awg_updated = 0;
  awg_started = 0;
}

abbrev plain_crypto : Crypto
plain_crypto = record { decode = λ b. some b; digest = λ b. b }

abbrev client : ConnectionState
client = record { has_chain = true; certificates = record { common_name = 17; raw = 17 ∷ [] } ∷ [] }

-- An instant of the year 2023.
abbrev instant : ℕ
instant = 63_835_596_800 * second

abbrev host_text : List ℕ
host_text = b'8' ∷ b':' ∷ b'1' ∷ []

abbrev quic_text : List ℕ
quic_text = b'q' ∷ []

abbrev handle : Tracked
handle = record { id = 17; address = 0; token = 9; since = instant }

abbrev tracked_live : Live
tracked_live = (track plain_crypto instant client quic_text 3 9 host_text true start_live).1

tracks_anna :
    track plain_crypto instant client quic_text 3 9 host_text true start_live
    ≡ (some handle, tracked_live)
unfolding track allowed lookup insert traffic_of change_traffic change_user source_ip
    split_host_port
tracks_anna = refl

abbrev reported_live : Live
reported_live = report handle (instant + second) (pos 7) (pos 5) tracked_live

buckets_of : ℕ → Live → List Bucket
buckets_of address l = elim (lookup address l.traffics) [ none ↦ [] | some t ↦ t.buckets ]

counts_seven : (snapshot 1_700_000_001 (buckets_of 0 reported_live)).tx ≡ 7
unfolding track allowed lookup insert traffic_of change_traffic change_user source_ip
    split_host_port report add snapshot buckets_of
counts_seven = refl

abbrev left_live : Live
left_live = untrack handle host_text true reported_live

report-ended_example : report handle (instant + second) (pos 100) (pos 1) left_live ≡ left_live
report-ended_example =
    report-ended handle start_live start_live tracked_live reported_live left_live left_live
      plain_crypto instant client quic_text 3 9 host_text true (instant + second) (pos 100) (pos 1)
      refl same_still tracks_anna
      (and_live same_still (reports handle (instant + second) (pos 7) (pos 5)))
      (untracked host_text true) same_still

-- The start with a worker, and what it reports of its one peer.
abbrev worker_live : Live
worker_live = record start_live {
  store = record start_live.store {
    awg_config = some worker;
    users = (17, record anna { protocols = some (awg ∷ []) }) ∷ [];
  };
}

abbrev one_peer : Status
one_peer = record {
  started = instant;
  updated = instant + 60 * second;
  peers =
      record {
        id = some 17;
        source = host_text;
        handshake = instant + 50 * second;
        activity = instant + 55 * second;
        tx = 9;
        rx = 4;
      }
      ∷ [];
}

shows_anna : has_awg 17 (observe_awg (instant + 61 * second) one_peer true worker_live) ≡ true
unfolding observe_awg observe_peers clear_awg lookup insert traffic_of change_traffic change_user
    source_ip split_host_port add offline_after enabled same
shows_anna = refl

observe_awg-has_awg_example :
    has_awg 17 (observe_awg (instant + 61 * second) one_peer true worker_live) ≡ (
      not (is_old (instant + 61 * second) one_peer)
      && is_online (instant + 61 * second) 17 one_peer.peers worker_live.store)
observe_awg-has_awg_example =
    observe_awg-has_awg 1 worker_live worker_live (instant + 61 * second) one_peer true 17 refl
      same_still

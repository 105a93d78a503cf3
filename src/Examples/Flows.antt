-- ===== src/Examples/Flows.antt =====
-- internal/debugcapture/user.go at concrete inputs: a flow of TCP, a frame of an interface, captures.
use quic_lab.Common.{
  ℕ, ◌+◌, ◌-◌, ◌<◌, ◌≡◌, refl, Bool, true, false, none, some, List, [], ◌∷◌, ◌++◌, arith, length,
  replicate,
}
use quic_lab.Common.Bytes.{put_be, be_from, put_le, get_le, be_at, le_at}
use quic_lab.Common.Maps.{insert}
use quic_lab.DebugCapture.{block, section_blocks, packet_block, read_records, read_pcap}
use quic_lab.DebugCapture.Packets.{sum_words, fold_carries, fold_rounds, checksum, Flow}
use quic_lab.DebugCapture.Packets.Sums.{fold_carries-stops}
use quic_lab.DebugCapture.Flows.{comment_body, packet_at}
use quic_lab.DebugCapture.Flows.Conversation.{Tells}
use quic_lab.DebugCapture.Flows.Recording.{record_calls, state_or_first, record_calls-Tells}
use quic_lab.DebugCapture.Session.{Session, emit}
use quic_lab.DebugCapture.Manager.{Manager, Launch, emit_all}
use quic_lab.DebugCapture.Listeners.{starts_user, at_start, and_step}
use quic_lab.DebugCapture.Users.{
  filter_block, read_awg, scan_sessions, user_session, started_session, start_user,
}
use quic_lab.DebugCapture.Users.Filter.{HasAdded, read_awg-HasAdded}
use quic_lab.DebugCapture.Users.Single.{is_captured, IsSingle}
use quic_lab.DebugCapture.Users.SingleReach.{ManagerReach-IsSingle}

checksum_of_odd : checksum (1 ∷ 2 ∷ 255 ∷ []) ≡ 65535 - (258 + 65280 - 65535)
unfolding checksum sum_words fold_carries
checksum_of_odd = refl

fold_carries-stops_example :
    (fold_carries fold_rounds 4294967295 < 65536)
    × (fold_carries (fold_rounds + 3) 4294967295 ≡ fold_carries fold_rounds 4294967295)
fold_carries-stops_example = fold_carries-stops 4294967295 3 (omega arith)

abbrev web_flow : Flow
web_flow = record { udp = false; src = 3323068417; dst = 134744072; sport = 1025; dport = 80 }

abbrev two_calls : List (Bool × List ℕ)
two_calls = (true, 71 ∷ 69 ∷ 84 ∷ []) ∷ (false, 79 ∷ 75 ∷ []) ∷ []

record_calls-Tells_example :
    Tells
      (71 ∷ 69 ∷ 84 ∷ [])
      (79 ∷ 75 ∷ [])
      (state_or_first (record_calls two_calls (none, [])).0, (record_calls two_calls (none, [])).1)
record_calls-Tells_example = record_calls-Tells two_calls

abbrev launched : Launch
launched = record {
  now = 0;
  id = 1;
  upload_token = 2;
  started = true;
  is_ready = true;
  listens = true;
  early = [];
}

abbrev fresh_capture : Session
fresh_capture = user_session launched 3 5

-- The link type 101, then one packet of twenty bytes from 8.8.8.8.
abbrev awg_stream : List ℕ
awg_stream =
    put_le 4 2712847316
    ++ (put_le 2 2
        ++ (put_le 2 4
            ++ (put_le 8 0
                ++ (put_le 4 262144
                    ++ (put_le 4 101
                        ++ (put_le 4 1
                            ++ (put_le 4 2
                                ++ (put_le 4 20
                                    ++ (put_le 4 20
                                        ++ ((69 ∷ replicate 11 0)
                                            ++ (put_be 4 134744072 ++ put_be 4 1)))))))))))

adds_one : length (read_awg 0 134744072 [] awg_stream fresh_capture).1.1.blocks ≡ 1
unfolding read_awg read_pcap read_records filter_block packet_at emit section_blocks block put_le
    put_be be_at le_at get_le be_from packet_block comment_body
adds_one = refl

read_awg-HasAdded_example :
    HasAdded 134744072 fresh_capture (read_awg 0 134744072 [] awg_stream fresh_capture).1.1
read_awg-HasAdded_example = read_awg-HasAdded 0 134744072 [] awg_stream fresh_capture

abbrev idle_manager : Manager
idle_manager = record {
  first_port = 0;
  slots = 2;
  echo_ports = (0, 0);
  vpn_ports = (0, 0);
  sessions = [];
  closing = false;
}

abbrev one_capture : Manager
one_capture = (start_user launched 3 (some 5) [] none idle_manager).1

refused_twice : is_captured (some 5) one_capture.sessions ≡ true
unfolding start_user scan_sessions started_session insert emit emit_all
refused_twice = refl

ManagerReach-IsSingle_example :
    IsSingle (start_user (record launched { id = 2 }) 3 (some 5) [] none one_capture).1.sessions
ManagerReach-IsSingle_example = ManagerReach-IsSingle {m = idle_manager} tt (
    and_step (and_step at_start (starts_user launched 3 (some 5) [] none))
      (starts_user (record launched { id = 2 }) 3 (some 5) [] none))

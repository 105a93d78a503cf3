-- ===== src/Examples/Captures.antt =====
-- internal/debugcapture at concrete inputs: a capture file with one record, and a session.
use quic_lab.Common.{
  ℕ, ◌≡◌, refl, inl, true, false, some, List, [], ◌∷◌, ◌++◌, map, arith, replicate, eof,
}
use quic_lab.Common.Maps.{lookup, insert, delete, keep}
use quic_lab.DebugCapture.{section_blocks, read_pcap, big}
use quic_lab.DebugCapture.Reading.{read_pcap-write_records}
use quic_lab.DebugCapture.Stream.{Record, write_records, file_header, block_of, collector}
use quic_lab.DebugCapture.Session.{
  Session, emit, stop, make_ticket, redeem_ticket, attach_token, echo_capture, vpn_capture,
}
use quic_lab.DebugCapture.Manager.{
  Manager, free_port, choose_ports, Launch, new_session, emit_all, start,
}
use quic_lab.DebugCapture.Listeners.{IsManager, starts, at_start, and_step}
use quic_lab.DebugCapture.Starting.{ManagerReach-IsManager}
use quic_lab.DebugCapture.Exclusion.{count_of, exclude, include_again}
use quic_lab.DebugCapture.Bounds.{
  SessionReach, IsGood, SessionReach-IsGood, IsOver, SessionReach-IsOver, emits, asks_ticket,
  redeems, attaches, unchanged, one_more,
}

abbrev one_record : Record
one_record = record { seconds = 1_700_000_000; micros = 5; original = 60; packet = 1 ∷ 2 ∷ [] }

abbrev twelve : List ℕ
twelve = replicate 12 0

read_pcap-write_records_example :
    read_pcap collector (file_header big twelve 1 ++ write_records big (one_record ∷ [])) []
    ≡ (eof, section_blocks 1 ∷ block_of one_record ∷ [])
read_pcap-write_records_example =
    read_pcap-write_records big twelve 1 (one_record ∷ []) (refl, omega arith)
      ((omega arith, omega arith, omega arith, omega arith, omega arith), tt)

abbrev launched : Launch
launched = record {
  now = 0;
  id = 1;
  upload_token = 2;
  started = true;
  is_ready = true;
  listens = true;
  early = [];
}

abbrev blank : Session
blank = new_session launched 3 vpn_capture (443, 443)

with_ticket : SessionReach blank 0 (redeem_ticket 5 (some 7) 8 (make_ticket 4 7 blank).1).1 0
with_ticket = one_more (one_more unchanged (asks_ticket 4 7)) (redeems 5 8 (some 7))

-- A ticket, its redemption, and the two attachments with the token: the second is refused.
attached :
    SessionReach blank 0
      (attach_token
        (some 8)
        (attach_token (some 8) (redeem_ticket 5 (some 7) 8 (make_ticket 4 7 blank).1).1).1).1
      1
unfolding attach_token redeem_ticket make_ticket
attached = one_more (one_more with_ticket (attaches (some 8))) (attaches (some 8))

SessionReach-IsGood_example :
    IsGood
      (attach_token
        (some 8)
        (attach_token (some 8) (redeem_ticket 5 (some 7) 8 (make_ticket 4 7 blank).1).1).1).1
      1
SessionReach-IsGood_example =
    SessionReach-IsGood ((refl, refl, omega arith, omega arith, inl refl), refl) attached

stopped : SessionReach (stop "expired" blank) 0 (emit 9 (1 ∷ []) (stop "expired" blank)).1 0
stopped = one_more unchanged (emits 9 (1 ∷ []))

SessionReach-IsOver_example :
    IsOver (stop "expired" blank) (emit 9 (1 ∷ []) (stop "expired" blank)).1
unfolding stop
SessionReach-IsOver_example = SessionReach-IsOver refl stopped

abbrev idle_manager : Manager
idle_manager = record {
  first_port = 5000;
  slots = 2;
  echo_ports = (0, 0);
  vpn_ports = (0, 0);
  sessions = [];
  closing = false;
}

abbrev second : Launch
second = record launched { id = 2 }

abbrev two_captures : Manager
two_captures =
    (start second 3 echo_capture false (start launched 3 vpn_capture false idle_manager).1).1

takes_next_port : map (λ e. e.1.port) two_captures.sessions ≡ 5000 ∷ 5001 ∷ []
unfolding start choose_ports free_port keep insert emit_all
takes_next_port = refl

ManagerReach-IsManager_example : IsManager two_captures
ManagerReach-IsManager_example =
    ManagerReach-IsManager (omega arith, tt, (λ h. omega arith), λ ne. tt)
      (and_step (and_step at_start (starts launched 3 vpn_capture false))
        (starts second 3 echo_capture false))

counts_peer_seven : count_of 7 (include_again 7 (exclude 9 (exclude 7 (exclude 7 [])))) ≡ 1
unfolding count_of lookup exclude include_again insert delete
counts_peer_seven = refl

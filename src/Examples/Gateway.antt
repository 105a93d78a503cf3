-- ===== src/Examples/Gateway.antt =====
-- internal/gateway/wire.go, udp_stream.go and server.go at concrete inputs.
use quic_lab.Common.{
  ℕ, ◌<◌, ◌≡◌, refl, ◌↔◌, true, false, Option, none, some, List, [], ◌∷◌, ◌++◌, arith, All, eof,
  closed_pipe, message, err, ok,
}
use quic_lab.Common.Bytes.{put_be}
use quic_lab.Common.Maps.{insert}
use quic_lab.Net.{parse_ip4, Prefix}
use quic_lab.Net.Printing.{print_ip4, parse_ip4-print_ip4}
use quic_lab.Gateway.Wire.{
  Source, Sink, write, write_packet, read_packet, MStream, mstream_read, write_chunks,
  mstream_write, close_write, packet_read, packet_write,
}
use quic_lab.Gateway.Wire.Packets.{framed, read_packet-write_packet, read_packet_over_limit}
use quic_lab.Gateway.Wire.PacketStream.{packet_read-packet_write}
use quic_lab.Gateway.Wire.HalfClose.{awaiting, mstream_read-close_write}
use quic_lab.Gateway.Server.{
  Request, Outside, permitted, opened, handle_datagrams, tcp, qstream, replies, dials, relays,
}
use quic_lab.Gateway.Server.Permission.{
  IsPermittedDial, handle_datagrams_permitted, IsPermitted, permitted_lem,
}
use quic_lab.Gateway.Server.Slots.{Slots}

abbrev wide : Sink
wide = record { sent = []; room = 100 }

abbrev closed_source : List ℕ → Source
closed_source b = record { bytes = b; last = eof }

abbrev idle : MStream
idle = record {
  raw_in = closed_source [];
  raw_out = wide;
  pending = [];
  at_eof = false;
  write_closed = false;
}

abbrev wire_bytes : List ℕ
wire_bytes = 0 ∷ 2 ∷ 0 ∷ 3 ∷ 0 ∷ 3 ∷ 5 ∷ 6 ∷ 7 ∷ []

sends_packet : (packet_write idle (5 ∷ 6 ∷ 7 ∷ [])).1.raw_out.sent ≡ wire_bytes
unfolding packet_write mstream_write write_chunks write_packet write put_be
sends_packet = refl

abbrev at_the_other_end : MStream
at_the_other_end = record idle { raw_in = closed_source (wire_bytes ++ (1 ∷ [])) }

packet_read-packet_write_example :
    ((packet_write idle (5 ∷ 6 ∷ 7 ∷ [])).0 ≡ ok 3)
    × ((packet_read 10 at_the_other_end).0 ≡ ok (5 ∷ 6 ∷ 7 ∷ []))
    × ((packet_read 10 at_the_other_end).1.raw_in.bytes ≡ 1 ∷ [])
    × ((packet_read 10 at_the_other_end).1.pending ≡ [])
    × ((packet_read 10 at_the_other_end).1.at_eof ≡ false)
packet_read-packet_write_example =
    packet_read-packet_write idle at_the_other_end (5 ∷ 6 ∷ 7 ∷ []) wire_bytes (1 ∷ []) 10 refl
      (omega arith) (omega arith) (omega arith) sends_packet refl refl refl

read_packet-write_packet_example :
    ((write_packet wide (5 ∷ 6 ∷ [])).0 ≡ none)
    × ((frame : List ℕ) × ((write_packet wide (5 ∷ 6 ∷ [])).1.sent ≡ frame)
        × (read_packet 4096 (closed_source (frame ++ (1 ∷ [])))
            ≡ (ok (5 ∷ 6 ∷ []), closed_source (1 ∷ []))))
read_packet-write_packet_example =
    read_packet-write_packet wide (5 ∷ 6 ∷ []) (1 ∷ []) eof 4096 (omega arith) (omega arith)
      (omega arith)

read_packet_over_limit_example :
    read_packet 1 (closed_source (framed (5 ∷ 6 ∷ []) ++ []))
    ≡ (err (message "frame limit"), closed_source (5 ∷ 6 ∷ []))
read_packet_over_limit_example =
    read_packet_over_limit 1 (5 ∷ 6 ∷ []) [] eof (omega arith) (omega arith)

-- "10.1.2.3:443"
abbrev inner_address : List ℕ
inner_address =
    b'1' ∷ b'0' ∷ b'.' ∷ b'1' ∷ b'.' ∷ b'2' ∷ b'.' ∷ b'3' ∷ b':' ∷ b'4' ∷ b'4' ∷ b'3' ∷ []

abbrev private_net : List Prefix
private_net = record { addr = 0x0a000000; bits = 8 } ∷ []

allows_inner : permitted private_net inner_address ≡ true
unfolding permitted
allows_inner = refl

permitted_lem_example :
    (permitted private_net inner_address ≡ true) ↔ IsPermitted private_net inner_address
permitted_lem_example = permitted_lem private_net inner_address

abbrev answering : Outside
answering = record {
  has_probe = false;
  probe_ok = false;
  resolved = some ((b'8' ∷ b'.' ∷ b'8' ∷ b'.' ∷ b'8' ∷ b'.' ∷ b'8' ∷ []) ∷ []);
  dial_ok = true;
  register_error = none;
  reply_written = true;
}

abbrev inner_request : Option Request
inner_request = some (record { network = tcp; address = inner_address })

dials_inner :
    handle_datagrams private_net answering qstream true "s" inner_request
    ≡ dials "tcp4" inner_address ∷ replies (opened "s") ∷ relays ∷ []
unfolding handle_datagrams
dials_inner = refl

handle_datagrams_permitted_example :
    All
      (IsPermittedDial private_net)
      (handle_datagrams private_net answering qstream true "s" inner_request)
handle_datagrams_permitted_example =
    handle_datagrams_permitted private_net answering qstream true "s" inner_request

abbrev no_session : Slots
no_session = record { server = 0; sessions = [] }

one_session : Slots
one_session = record { server = 0; sessions = insert 1 0 [] }

parses_printed : parse_ip4 (print_ip4 0x0a010203) ≡ some 0x0a010203
parses_printed = parse_ip4-print_ip4 0x0a010203 (omega arith)

mstream_read-close_write_example :
    ((close_write idle).0 ≡ none)
    × ((b : List ℕ)
        → mstream_write (close_write idle).1 b ≡ (0, some closed_pipe, (close_write idle).1))
    × (close_write (close_write idle).1 ≡ (none, (close_write idle).1))
    × ((frame : List ℕ) × ((close_write idle).1.raw_out.sent ≡ [] ++ frame)
        × ((mstream_read 4 (awaiting (frame ++ (7 ∷ [])) eof idle)).0 ≡ err eof)
        × ((m : ℕ)
            → 0 < m
            → mstream_read m (mstream_read 4 (awaiting (frame ++ (7 ∷ [])) eof idle)).1
              ≡ (err eof, (mstream_read 4 (awaiting (frame ++ (7 ∷ [])) eof idle)).1)))
mstream_read-close_write_example =
    mstream_read-close_write idle idle 4 (7 ∷ []) eof refl (omega arith) (omega arith)

-- ===== src/Gateway/Wire.antt =====
-- internal/gateway/wire.go, and the packet stream of internal/gateway/udp_stream.go.
-- A connection's receiving half is the bytes that are still to come and the error behind them; its
-- sending half is the bytes already written and how many more the transport takes before it fails.
pub mod Packets
pub mod Sending
pub mod Receiving
pub mod PacketStream
pub mod HalfClose
use quic_lab.Common.{
  ℕ, zero, suc, ◌+◌, ◌-◌, ◌%◌, Bool, true, false, Option, none, some, List, [], ◌∷◌, ◌++◌, ltb, leb,
  ◌==◌, if◌then◌else◌, length, take, drop, GoError, Result, eof, unexpected_eof, closed_pipe,
  foreign, message, ok, err,
}
use quic_lab.Common.Bytes.{put_be, be_at}
use Prim.Native.Nat.{min}

pub record Source : Type 0 where
  pub bytes : List ℕ
  pub last : GoError

pub record Sink : Type 0 where
  pub sent : List ℕ
  pub room : ℕ

-- io.ReadFull turns an end of file inside the buffer into ErrUnexpectedEOF.
abbrev pub short_read : List ℕ → GoError → GoError
short_read (b ∷ bs) eof = unexpected_eof
short_read bytes e = e

unfoldable pub read_full : ℕ → Source → Result (List ℕ) × Source
read_full n r =
    if leb n (length r.bytes)
    then (ok (take n r.bytes), record r { bytes = drop n r.bytes })
    else (err (short_read r.bytes r.last), record r { bytes = [] })

unfoldable pub write : Sink → List ℕ → Result ℕ × Sink
write w b =
    if leb (length b) w.room
    then (ok (length b), record { sent = w.sent ++ b; room = w.room - length b })
    else (err foreign, record { sent = w.sent ++ take w.room b; room = 0 })

-- A written value whose error is the only thing of interest.
abbrev pub only_error : Result ℕ × Sink → Option GoError × Sink
only_error (ok n, w) = (none, w)
only_error (err e, w) = (some e, w)

abbrev pub write_body : List ℕ → Result ℕ × Sink → Option GoError × Sink
write_body b (ok n, w) = only_error (write w b)
write_body b (err e, w) = (some e, w)

unfoldable pub write_packet : Sink → List ℕ → Option GoError × Sink
write_packet w b =
    if ltb 65535 (length b)
    then (some (message "frame too large"), w)
    else write_body b (write w (put_be 2 (length b % 65536)))

abbrev pub read_body : ℕ → Result (List ℕ) × Source → Result (List ℕ) × Source
read_body limit (err e, r) = (err e, r)
read_body limit (ok h, r) =
    if ltb limit (be_at 2 0 h) then (err (message "frame limit"), r) else read_full (be_at 2 0 h) r

unfoldable pub read_packet : ℕ → Source → Result (List ℕ) × Source
read_packet limit r = read_body limit (read_full 2 r)

abbrev pub max_mux_frame : ℕ
max_mux_frame = 32768

-- Framing over a smux stream: an empty frame is the sender's FIN.
pub record MStream : Type 0 where
  pub raw_in : Source
  pub raw_out : Sink
  pub pending : List ℕ
  pub at_eof : Bool
  pub write_closed : Bool

-- `copy(b, s.pending)` into a buffer of `n` bytes.
abbrev pub hand_out : ℕ → List ℕ → MStream → Result (List ℕ) × MStream
hand_out n p s = (ok (take n p), record s { pending = drop n p })

abbrev pub refill : ℕ → MStream → Result (List ℕ) × Source → Result (List ℕ) × MStream
refill n s (err e, r) = (err e, record s { raw_in = r })
refill n s (ok [], r) = (err eof, record s { raw_in = r; at_eof = true })
refill n s (ok (x ∷ xs), r) = hand_out n (x ∷ xs) (record s { raw_in = r })

abbrev pub read_pending : ℕ → List ℕ → MStream → Result (List ℕ) × MStream
read_pending n [] s =
    if s.at_eof then (err eof, s) else refill n s (read_packet max_mux_frame s.raw_in)
read_pending n (x ∷ xs) s = hand_out n (x ∷ xs) s

-- MStream.Read into a buffer of `n` bytes; the result is what it wrote there.
unfoldable pub mstream_read : ℕ → MStream → Result (List ℕ) × MStream
mstream_read n s = if n == 0 then (ok [], s) else read_pending n s.pending s

-- The loop of MStream.Write: the bytes that were written, the error that stopped it.
-- Every round sends at least a byte, so the length of the payload is fuel enough.
unfoldable pub write_chunks : ℕ → ℕ → List ℕ → Sink → ℕ × Option GoError × Sink
write_chunks fuel total [] w = (total, none, w)
write_chunks zero total (x ∷ xs) w = (total, none, w)
write_chunks (suc fuel) total (x ∷ xs) w =
    let n = min (length (x ∷ xs)) max_mux_frame in
    let (failed, w') = write_packet w (take n (x ∷ xs)) in
    elim failed [
      | some e ↦ (total, some e, w')
      | none ↦ write_chunks fuel (total + n) (drop n (x ∷ xs)) w'
    ]

abbrev pub store_out : MStream → ℕ × Option GoError × Sink → ℕ × Option GoError × MStream
store_out s (n, e, w) = (n, e, record s { raw_out = w })

unfoldable pub mstream_write : MStream → List ℕ → ℕ × Option GoError × MStream
mstream_write s b =
    if s.write_closed
    then (0, some closed_pipe, s)
    else store_out s (write_chunks (length b) 0 b s.raw_out)

abbrev pub store_error : MStream → Option GoError × Sink → Option GoError × MStream
store_error s (e, w) = (e, record s { raw_out = w })

unfoldable pub close_write : MStream → Option GoError × MStream
close_write s =
    if s.write_closed
    then (none, s)
    else store_error (record s { write_closed = true }) (write_packet s.raw_out [])

abbrev pub max_udp : ℕ
max_udp = 65507

-- io.ReadFull over an MStream: `n` bytes are still wanted, `got` are there. A read that succeeds
-- brings at least a byte, so the length of the buffer is fuel enough.
unfoldable pub mstream_read_full : ℕ → ℕ → List ℕ → MStream → Result (List ℕ) × MStream
mstream_read_full zero n got s = (ok got, s)
mstream_read_full (suc fuel) n got s =
    let (r, s') = mstream_read n s in
    let stop : Result (List ℕ) × MStream = (ok got, s) in
    elim (n == 0) [
      | true ↦ stop
      | false ↦ elim r [
        | err e ↦ (err (short_read got e), s')
        | ok p ↦ mstream_read_full fuel (n - length p) (got ++ p) s'
      ]
    ]

abbrev pub packet_body : ℕ → Result (List ℕ) × MStream → Result (List ℕ) × MStream
packet_body limit (err e, s) = (err e, s)
packet_body limit (ok h, s) =
    if ltb limit (be_at 2 0 h)
    then (err (message "frame limit"), s)
    else mstream_read_full (be_at 2 0 h) (be_at 2 0 h) [] s

-- ReadPacket over an MStream.
unfoldable pub mstream_read_packet : ℕ → MStream → Result (List ℕ) × MStream
mstream_read_packet limit s = packet_body limit (mstream_read_full 2 2 [] s)

abbrev pub copy_out : ℕ → Result (List ℕ) × MStream → Result (List ℕ) × MStream
copy_out n (err e, s) = (err e, s)
copy_out n (ok p, s) = (ok (take n p), s)

-- PacketStream.Read into a buffer of `n` bytes.
unfoldable pub packet_read : ℕ → MStream → Result (List ℕ) × MStream
packet_read n s = copy_out n (mstream_read_packet max_udp s)

abbrev pub after_body : List ℕ → ℕ × Option GoError × MStream → Result ℕ × MStream
after_body b (n, some e, s) = (err e, s)
after_body b (n, none, s) = (ok (length b), s)

abbrev pub after_header : List ℕ → ℕ × Option GoError × MStream → Result ℕ × MStream
after_header b (n, some e, s) = (err e, s)
after_header b (n, none, s) = after_body b (mstream_write s b)

-- PacketStream.Write: the header and the payload are two writes to the stream.
unfoldable pub packet_write : MStream → List ℕ → Result ℕ × MStream
packet_write s b =
    if ltb max_udp (length b)
    then (err (message "UDP payload too large"), s)
    else after_header b (mstream_write s (put_be 2 (length b % 65536)))

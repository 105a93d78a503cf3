-- ===== src/Gateway/Wire/HalfClose.antt =====
-- MStream.CloseWrite (internal/gateway/wire.go) and what the other end reads.
use quic_lab.Common.{
  ℕ, ◌-◌, ◌≤◌, ◌<◌, ◌≡◌, refl, ap, true, false, none, some, List, [], ◌++◌, arith, ◌==◌, GoError,
  eof, closed_pipe, err,
}
use quic_lab.Gateway.Wire.{max_mux_frame, MStream, mstream_read, mstream_write, close_write}
use quic_lab.Gateway.Wire.Packets.{framed, read_packet-framed, write_packet_room}

-- The other end, before the frame `frame` and the bytes behind it.
abbrev pub awaiting : List ℕ → GoError → MStream → MStream
awaiting bytes e r = record r {
  raw_in = record { bytes = bytes; last = e };
  pending = [];
  at_eof = false;
}

close_write_open :
    (w : MStream)
    → w.write_closed ≡ false
    → 2 ≤ w.raw_out.room
    → close_write w ≡ (
      none,
      record w {
        raw_out = record { sent = w.raw_out.sent ++ framed []; room = w.raw_out.room - 2 };
        write_closed = true;
      },
    )
unfolding close_write
close_write_open w h room = rw (h, write_packet_room w.raw_out [] (omega arith) room) refl

read_empty :
    (n : ℕ) (r : MStream) (rest : List ℕ) (e : GoError)
    → 0 < n
    → mstream_read n (awaiting (framed [] ++ rest) e r)
      ≡ (err eof, record (awaiting rest e r) { at_eof = true })
unfolding mstream_read
read_empty n r rest e h =
    let positive : (n == 0) ≡ false = ground arith in
    rw (positive, read_packet-framed max_mux_frame [] rest e (omega arith) (omega arith)) refl

read_ended :
    (n : ℕ) (r : MStream) (rest : List ℕ) (e : GoError)
    → 0 < n
    → mstream_read n (record (awaiting rest e r) { at_eof = true })
      ≡ (err eof, record (awaiting rest e r) { at_eof = true })
unfolding mstream_read
read_ended n r rest e h = let positive : (n == 0) ≡ false = ground arith in rw positive refl

-- CloseWrite on an open stream whose transport has room for a frame succeeds and sends one frame.
-- Every later Write gives io.ErrClosedPipe and a second CloseWrite does nothing. The other end, when
-- it has read everything before, reads io.EOF for that frame, whatever follows it, and io.EOF again
-- on every later Read, without taking anything more from the transport.
pub mstream_read-close_write :
    (w r : MStream) (n : ℕ) (rest : List ℕ) (e : GoError)
    → w.write_closed ≡ false
    → 2 ≤ w.raw_out.room
    → 0 < n
    → ((close_write w).0 ≡ none)
      × ((b : List ℕ)
          → mstream_write (close_write w).1 b ≡ (0, some closed_pipe, (close_write w).1))
      × (close_write (close_write w).1 ≡ (none, (close_write w).1))
      × ((frame : List ℕ) × ((close_write w).1.raw_out.sent ≡ w.raw_out.sent ++ frame)
          × ((mstream_read n (awaiting (frame ++ rest) e r)).0 ≡ err eof)
          × ((m : ℕ)
              → 0 < m
              → mstream_read m (mstream_read n (awaiting (frame ++ rest) e r)).1
                ≡ (err eof, (mstream_read n (awaiting (frame ++ rest) e r)).1)))
unfolding mstream_write close_write
mstream_read-close_write w r n rest e h room some_bytes = rw (close_write_open w h room) (
  refl,
  (λ b. refused_write b),
  again,
  (
    framed [],
    refl,
    ap (λ x. x.0) (read_empty n r rest e some_bytes),
    λ m. λ k. rw (read_empty n r rest e some_bytes) (read_ended m r rest e k),
  ),
)
  where
    closed : MStream
    closed = record w {
      raw_out = record { sent = w.raw_out.sent ++ framed []; room = w.raw_out.room - 2 };
      write_closed = true;
    }

    refused_write : (b : List ℕ) → mstream_write closed b ≡ (0, some closed_pipe, closed)
    refused_write b = refl

    again : close_write closed ≡ (none, closed)
    again = refl

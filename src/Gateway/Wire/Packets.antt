-- ===== src/Gateway/Wire/Packets.antt =====
-- ReadPacket against WritePacket (internal/gateway/wire.go).
use quic_lab.Common.{
  ℕ, ◌+◌, ◌-◌, ◌%◌, ◌≤◌, ◌<◌, ◌≡◌, refl, none, List, ◌++◌, append_assoc, arith, lt→ltb, le→ltb,
  length, length-append, take_prefix, drop_prefix, take_all, GoError, message, ok, err,
}
use quic_lab.Common.Bytes.{put_be, be_at, be_from-put_be, length-put_be}
use quic_lab.Gateway.Wire.{Sink, read_full, write, write_packet, read_packet}

-- What WritePacket puts on the wire.
abbrev pub framed : List ℕ → List ℕ
framed b = put_be 2 (length b) ++ b

pub header_value : (n : ℕ) (h : n < 65536) → be_at 2 0 (put_be 2 n) ≡ n
unfolding be_at
header_value n h =
    rw (take_all 2 (put_be 2 n) (omega (arith, length-put_be 2 n))) (be_from-put_be 2 n h)

pub read_full-append :
    (p rest : List ℕ) (e : GoError) (n : ℕ)
    → length p ≡ n
    → read_full n (record { bytes = p ++ rest; last = e })
      ≡ (ok p, record { bytes = rest; last = e })
unfolding read_full
read_full-append p rest e n h =
    rw (← h) (ground (arith, length-append p rest, take_prefix p rest, drop_prefix p rest))

-- A frame that is within the reader's limit is read back whole, and nothing behind it is touched.
pub read_packet-framed :
    (limit : ℕ) (b rest : List ℕ) (e : GoError)
    → length b ≤ 65535
    → length b ≤ limit
    → read_packet limit (record { bytes = framed b ++ rest; last = e })
      ≡ (ok b, record { bytes = rest; last = e })
unfolding read_packet
read_packet-framed limit b rest e small fits =
    rw
      (
        append_assoc (put_be 2 (length b)) b rest,
        read_full-append (put_be 2 (length b)) (b ++ rest) e 2 (length-put_be 2 (length b)),
        header_value (length b) (omega arith),
        le→ltb limit (length b) fits,
      )
      (read_full-append b rest e (length b) refl)

pub length-framed : (b : List ℕ) → length (framed b) ≡ 2 + length b
length-framed b =
    rw (length-append (put_be 2 (length b)) b, length-put_be 2 (length b)) (omega arith)

write_room :
    (w : Sink) (b : List ℕ)
    → length b ≤ w.room
    → write w b ≡ (ok (length b), record { sent = w.sent ++ b; room = w.room - length b })
unfolding write
write_room w b h = ground arith

pub write_packet_room :
    (w : Sink) (b : List ℕ)
    → length b ≤ 65535
    → 2 + length b ≤ w.room
    → write_packet w b
      ≡ (none, record { sent = w.sent ++ framed b; room = w.room - (2 + length b) })
unfolding write_packet
write_packet_room w b small fits =
    let e : length b % 65536 ≡ length b = omega arith in
    rw
      (
        le→ltb 65535 (length b) small,
        e,
        write_room w (put_be 2 (length b)) (omega (arith, length-put_be 2 (length b))),
        write_room
            (record {
              sent = w.sent ++ put_be 2 (length b);
              room = w.room - length (put_be 2 (length b));
            })
            b (omega (arith, length-put_be 2 (length b))),
        append_assoc w.sent (put_be 2 (length b)) b,
        length-put_be 2 (length b),
      )
      (ground arith)

-- What WritePacket sends for a payload of at most 65535 bytes, on a transport with room for it, is
-- read back by ReadPacket as that payload, whatever follows on the connection, when the reader's
-- limit admits the payload; and the bytes behind the frame stay unread.
pub read_packet-write_packet :
    (w : Sink) (b rest : List ℕ) (e : GoError) (limit : ℕ)
    → length b ≤ 65535
    → length b ≤ limit
    → 2 + length b ≤ w.room
    → ((write_packet w b).0 ≡ none)
      × ((frame : List ℕ) × ((write_packet w b).1.sent ≡ w.sent ++ frame)
          × (read_packet limit (record { bytes = frame ++ rest; last = e })
              ≡ (ok b, record { bytes = rest; last = e })))
read_packet-write_packet w b rest e limit small fits room =
    rw (write_packet_room w b small room)
      (refl, (framed b, refl, read_packet-framed limit b rest e small fits))

-- ReadPacket refuses a frame that is longer than its limit, and has then read the header only.
pub read_packet_over_limit :
    (limit : ℕ) (b rest : List ℕ) (e : GoError)
    → length b ≤ 65535
    → limit < length b
    → read_packet limit (record { bytes = framed b ++ rest; last = e })
      ≡ (err (message "frame limit"), record { bytes = b ++ rest; last = e })
unfolding read_packet
read_packet_over_limit limit b rest e small over =
    rw
      (
        append_assoc (put_be 2 (length b)) b rest,
        read_full-append (put_be 2 (length b)) (b ++ rest) e 2 (length-put_be 2 (length b)),
        header_value (length b) (omega arith),
        lt→ltb limit (length b) over,
      )
      refl

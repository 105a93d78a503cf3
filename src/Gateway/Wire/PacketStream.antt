-- ===== src/Gateway/Wire/PacketStream.antt =====
-- PacketStream (internal/gateway/udp_stream.go): datagrams over an ordered stream of bytes.
use quic_lab.Common.{
  ℕ, ◌+◌, ◌-◌, ◌%◌, ◌≤◌, ◌≡◌, refl, sym, ap, ◌∙◌, false, none, List, [], ◌∷◌, ◌++◌, append_assoc,
  append-nil, arith, le→ltb, length, All, length-append, take_all, All-append, append_cancel, ok,
}
use quic_lab.Common.Bytes.{put_be, length-put_be}
use quic_lab.Gateway.Wire.{
  MStream, mstream_write, mstream_read_full, mstream_read_packet, packet_read, packet_write,
}
use quic_lab.Gateway.Wire.Packets.{framed, header_value}
use quic_lab.Gateway.Wire.Sending.{
  flat, wire_of, IsChunk, wire_of-append, flat-append, chunks, flat-chunks, chunks-IsChunk, cost,
  mstream_write-frames,
}
use quic_lab.Gateway.Wire.Receiving.{Carries, Fills, mstream_read_full-Fills, mstream_read_full_lem}
use mathlib.Core.Path.{subst, ap₂}

-- A stream that carries no byte has none in its buffer, and no frame before `rest`.
Carries-nil :
    (s : MStream) (rest : List ℕ)
    → Carries s [] rest
    → (s.raw_in.bytes ≡ rest) × (s.pending ≡ []) × (s.at_eof ≡ false)
Carries-nil s rest ([], small, wire, held, live) = (wire, sym (append-nil s.pending) ∙ held, live)
Carries-nil s rest (f ∷ fs, small, wire, held, live) = absurd (
    omega
      (arith, ap length held, length-append s.pending (f ++ flat fs), length-append f (flat fs)))

read_header :
    (b more rest : List ℕ) (t : MStream)
    → Carries t (framed b ++ more) rest
    → Fills (put_be 2 (length b)) (b ++ more) rest (mstream_read_full 2 2 [] t)
read_header b more rest t c =
    mstream_read_full-Fills 2 2 (put_be 2 (length b)) (b ++ more) [] rest t
      (length-put_be 2 (length b)) (omega arith)
      (subst (λ l. Carries t l rest) (append_assoc (put_be 2 (length b)) b more) c)

-- A framed packet is read whole, and what follows it stays in the stream.
pub mstream_read_packet-Fills :
    (limit : ℕ) (b more rest : List ℕ) (t : MStream)
    → length b ≤ limit
    → length b ≤ 65535
    → Carries t (framed b ++ more) rest
    → Fills b more rest (mstream_read_packet limit t)
unfolding mstream_read_packet
mstream_read_packet-Fills limit b more rest t fits small c =
    let (t1, read, c1) = read_header b more rest t c in
    rw (read, header_value (length b) (omega arith), le→ltb limit (length b) fits)
      (mstream_read_full_lem b more rest t1 c1)

-- What PacketStream.Write puts into the stream: the header's frame and those of the payload.
pub packet_frames : List ℕ → List (List ℕ)
packet_frames b = chunks 2 (put_be 2 (length b)) ++ chunks (length b) b

packet_frames-IsChunk : (b : List ℕ) → All IsChunk (packet_frames b)
unfolding packet_frames
packet_frames-IsChunk b =
    All-append IsChunk (chunks 2 (put_be 2 (length b))) (chunks (length b) b)
      (chunks-IsChunk 2 (put_be 2 (length b))) (chunks-IsChunk (length b) b)

flat-packet_frames : (b : List ℕ) → flat (packet_frames b) ≡ framed b
unfolding packet_frames
flat-packet_frames b =
    flat-append (chunks 2 (put_be 2 (length b))) (chunks (length b) b)
    ∙ ap₂ ◌++◌ (flat-chunks 2 (put_be 2 (length b)) (omega (arith, length-put_be 2 (length b))))
        (flat-chunks (length b) b (omega arith))

write_header :
    (s : MStream) (b : List ℕ)
    → s.write_closed ≡ false
    → 4 ≤ s.raw_out.room
    → length b ≤ 65507
    → mstream_write s (put_be 2 (length b % 65536)) ≡ (
      2,
      none,
      record s {
        raw_out = record {
          sent = s.raw_out.sent ++ wire_of (chunks 2 (put_be 2 (length b)));
          room = s.raw_out.room - 4;
        };
      },
    )
unfolding put_be
write_header s b still room small =
    let e : length b % 65536 ≡ length b = omega arith in
    rw e (mstream_write-frames s (put_be 2 (length b)) still room)

-- PacketStream.Write on an open stream with room takes the datagram whole.
pub packet_write-frames :
    (s : MStream) (b : List ℕ)
    → s.write_closed ≡ false
    → 4 + cost (length b) b ≤ s.raw_out.room
    → length b ≤ 65507
    → ((packet_write s b).0 ≡ ok (length b))
      × ((packet_write s b).1.raw_out.sent ≡ s.raw_out.sent ++ wire_of (packet_frames b))
unfolding packet_write packet_frames
packet_write-frames s b still room small =
    rw
      (
        le→ltb 65507 (length b) small,
        write_header s b still (omega arith) small,
        mstream_write-frames
            (record s {
              raw_out = record {
                sent = s.raw_out.sent ++ wire_of (chunks 2 (put_be 2 (length b)));
                room = s.raw_out.room - 4;
              };
            })
            b still (omega arith),
      )
      (
        refl,
        append_assoc s.raw_out.sent (wire_of (chunks 2 (put_be 2 (length b))))
              (wire_of (chunks (length b) b))
            ∙ ap (◌++◌ s.raw_out.sent)
                (sym (wire_of-append (chunks 2 (put_be 2 (length b))) (chunks (length b) b))),
      )

-- A datagram of at most 65507 bytes that PacketStream.Write sends on an open stream with room for
-- its frames is accepted whole, and PacketStream.Read on an idle stream at the other end, into a
-- buffer that is large enough, returns that datagram and leaves the stream idle again with exactly
-- the bytes behind it still to come.
pub packet_read-packet_write :
    (s t : MStream) (b wire rest : List ℕ) (n : ℕ)
    → s.write_closed ≡ false
    → 4 + cost (length b) b ≤ s.raw_out.room
    → length b ≤ 65507
    → length b ≤ n
    → (packet_write s b).1.raw_out.sent ≡ s.raw_out.sent ++ wire
    → t.raw_in.bytes ≡ wire ++ rest
    → t.pending ≡ []
    → t.at_eof ≡ false
    → ((packet_write s b).0 ≡ ok (length b))
      × ((packet_read n t).0 ≡ ok b)
      × ((packet_read n t).1.raw_in.bytes ≡ rest)
      × ((packet_read n t).1.pending ≡ [])
      × ((packet_read n t).1.at_eof ≡ false)
unfolding packet_read
packet_read-packet_write s t b wire rest n still room small fits sends arrives idle live =
    let (written, frames) = packet_write-frames s b still room small in
    let wire_eq : wire ≡ wire_of (packet_frames b) =
      append_cancel s.raw_out.sent wire (wire_of (packet_frames b)) (sym sends ∙ frames) in
    let carries : Carries t (framed b ++ []) rest = (
      packet_frames b,
      packet_frames-IsChunk b,
      arrives ∙ ap (λ w. w ++ rest) wire_eq,
      ap (λ p. p ++ flat (packet_frames b)) idle
          ∙ flat-packet_frames b
          ∙ sym (append-nil (framed b)),
      live,
    ) in
    let (t', read, after) =
      mstream_read_packet-Fills 65507 b [] rest t small (omega arith) carries in
    let (bytes, empty, open_still) = Carries-nil t' rest after in
    rw (read, take_all n b fits) (written, refl, bytes, empty, open_still)

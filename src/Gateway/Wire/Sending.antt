-- ===== src/Gateway/Wire/Sending.antt =====
-- MStream.Write (internal/gateway/wire.go): the pieces that its loop cuts a payload into.
use quic_lab.Common.{
  ℕ, zero, suc, ◌+◌, ◌-◌, ◌*◌, ◌≤◌, ◌<◌, ◌≡◌, refl, ◌∙◌, false, none, List, [], ◌∷◌, ◌++◌,
  append_assoc, append-nil, arith, length, take, drop, All, take-append-drop, length-take,
  length-drop,
}
use quic_lab.Gateway.Wire.{Sink, write_packet, MStream, write_chunks, mstream_write}
use quic_lab.Gateway.Wire.Packets.{framed, write_packet_room}
use Prim.Native.Nat.{min}

abbrev pub flat : List (List ℕ) → List ℕ
flat [] = []
flat (f ∷ fs) = f ++ flat fs

abbrev pub wire_of : List (List ℕ) → List ℕ
wire_of [] = []
wire_of (f ∷ fs) = framed f ++ wire_of fs

-- A frame that carries data: an empty one would be read as the end of the stream.
abbrev pub IsChunk : List ℕ → Type 0
IsChunk f = (0 < length f) × (length f ≤ 32768)

pub wire_of-append : (fs gs : List (List ℕ)) → wire_of (fs ++ gs) ≡ wire_of fs ++ wire_of gs
wire_of-append [] gs = refl
wire_of-append (f ∷ fs) gs =
    rw (wire_of-append fs gs, append_assoc (framed f) (wire_of fs) (wire_of gs))

pub flat-append : (fs gs : List (List ℕ)) → flat (fs ++ gs) ≡ flat fs ++ flat gs
flat-append [] gs = refl
flat-append (f ∷ fs) gs = rw (flat-append fs gs, append_assoc f (flat fs) (flat gs))

-- The pieces that the loop of MStream.Write cuts.
abbrev pub chunks : ℕ → List ℕ → List (List ℕ)
chunks zero b = []
chunks (suc fuel) [] = []
chunks (suc fuel) (x ∷ xs) =
    take (min (length (x ∷ xs)) 32768) (x ∷ xs)
    ∷ chunks fuel (drop (min (length (x ∷ xs)) 32768) (x ∷ xs))

pub flat-chunks : (fuel : ℕ) (b : List ℕ) → length b ≤ fuel → flat (chunks fuel b) ≡ b
flat-chunks zero [] h = refl
flat-chunks zero (x ∷ xs) h = absurd (omega arith)
flat-chunks (suc fuel) [] h = refl
flat-chunks (suc fuel) (x ∷ xs) h =
    let n = min (length (x ∷ xs)) 32768 in
    rw (flat-chunks fuel (drop n (x ∷ xs)) (omega (arith, length-drop n (x ∷ xs))))
      (take-append-drop n (x ∷ xs))

pub chunks-IsChunk : (fuel : ℕ) (b : List ℕ) → All IsChunk (chunks fuel b)
chunks-IsChunk zero b = tt
chunks-IsChunk (suc fuel) [] = tt
chunks-IsChunk (suc fuel) (x ∷ xs) =
    let n = min (length (x ∷ xs)) 32768 in
    (
      (omega (arith, length-take n (x ∷ xs)), omega (arith, length-take n (x ∷ xs))),
      chunks-IsChunk fuel (drop n (x ∷ xs)),
    )

-- The bytes that the loop sends for a payload, headers included.
abbrev pub cost : ℕ → List ℕ → ℕ
cost fuel b = length b + 2 * length (chunks fuel b)

write_chunks_step :
    (fuel total x : ℕ) (xs : List ℕ) (w w' : Sink)
    → write_packet w (take (min (length (x ∷ xs)) 32768) (x ∷ xs)) ≡ (none, w')
    → write_chunks (suc fuel) total (x ∷ xs) w
      ≡ write_chunks fuel
          (total + min (length (x ∷ xs)) 32768)
          (drop (min (length (x ∷ xs)) 32768) (x ∷ xs))
          w'
unfolding write_chunks
write_chunks_step fuel total x xs w w' e = rw (e, write_chunks) (rw e)

sink_eq :
    (s t : List ℕ) (a b : ℕ)
    → s ≡ t
    → a ≡ b
    → ◌≡◌ {A = Sink} (record { sent = s; room = a }) (record { sent = t; room = b })
sink_eq s t a b p q = λ i. record { sent = p i; room = q i }

-- With room for all of it, the loop sends the pieces in order.
write_chunks-chunks :
    (fuel total : ℕ) (b : List ℕ) (w : Sink)
    → length b ≤ fuel
    → cost fuel b ≤ w.room
    → write_chunks fuel total b w ≡ (
      total + length b,
      none,
      record { sent = w.sent ++ wire_of (chunks fuel b); room = w.room - cost fuel b },
    )
write_chunks-chunks zero total [] w h room =
    unfold write_chunks in ground (arith, append-nil w.sent)
write_chunks-chunks (suc fuel) total [] w h room =
    unfold write_chunks in ground (arith, append-nil w.sent)
write_chunks-chunks zero total (x ∷ xs) w h room = absurd (omega arith)
write_chunks-chunks (suc fuel) total (x ∷ xs) w h room =
    write_chunks_step fuel total x xs w w'
      (write_packet_room w f (omega (arith, lf)) (omega (arith, lf, lr)))
    ∙ write_chunks-chunks fuel (total + n) rest w' (omega (arith, lr)) (omega (arith, lr, lf))
    ∙ λ i. (
      count i,
      none,
      sink_eq _ _ _ _ (append_assoc w.sent (framed f) (wire_of (chunks fuel rest))) left i,
    )
  where
    n : ℕ
    n = min (length (x ∷ xs)) 32768

    f : List ℕ
    f = take n (x ∷ xs)

    rest : List ℕ
    rest = drop n (x ∷ xs)

    lf : length f ≡ n
    lf = omega (arith, length-take n (x ∷ xs))

    lr : length rest ≡ length (x ∷ xs) - n
    lr = omega (arith, length-drop n (x ∷ xs))

    w' : Sink
    w' = record { sent = w.sent ++ framed f; room = w.room - (2 + length f) }

    count : total + n + length rest ≡ total + length (x ∷ xs)
    count = omega (arith, lr)

    left : w'.room - cost fuel rest ≡ w.room - cost (suc fuel) (x ∷ xs)
    left = omega (arith, lr, lf)

-- MStream.Write, while the writing half is open and the transport has room, takes the whole payload
-- and sends frames that carry it in order, none of them empty.
pub mstream_write-frames :
    (s : MStream) (b : List ℕ)
    → s.write_closed ≡ false
    → cost (length b) b ≤ s.raw_out.room
    → mstream_write s b ≡ (
      length b,
      none,
      record s {
        raw_out = record {
          sent = s.raw_out.sent ++ wire_of (chunks (length b) b);
          room = s.raw_out.room - cost (length b) b;
        };
      },
    )
unfolding mstream_write
mstream_write-frames s b still room =
    rw (still, write_chunks-chunks (length b) 0 b s.raw_out (omega arith) room) (ground arith)

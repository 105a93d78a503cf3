-- ===== src/Gateway/Wire/Receiving.antt =====
-- MStream.Read (internal/gateway/wire.go) and io.ReadFull over it: what a stream delivers.
use quic_lab.Common.{
  ℕ, zero, suc, ◌+◌, ◌-◌, ◌≤◌, ◌<◌, ◌≡◌, refl, sym, ap, ◌∙◌, false, List, [], ◌∷◌, ◌++◌,
  append_assoc, append-nil, arith, ◌==◌, if◌then◌else◌, length, take, drop, All, length-append,
  take-append-drop, length-take, append_split, Result, eof, ok, err,
}
use quic_lab.Gateway.Wire.{
  read_packet, MStream, hand_out, refill, read_pending, mstream_read, mstream_read_full,
}
use quic_lab.Gateway.Wire.Packets.{framed, read_packet-framed}
use quic_lab.Gateway.Wire.Sending.{flat, wire_of, IsChunk}
use mathlib.Core.Path.{subst, subst₂}

-- The stream still holds the bytes `content`, in its buffer and in whole frames, and then `rest`.
abbrev pub Carries : MStream → List ℕ → List ℕ → Type 0
Carries s content rest =
    (fs : List (List ℕ)) × All IsChunk fs
    × (s.raw_in.bytes ≡ wire_of fs ++ rest)
    × (s.pending ++ flat fs ≡ content)
    × (s.at_eof ≡ false)

-- What a Read delivers: `p` is a piece of the content, and the stream carries what is left.
abbrev pub Delivers : ℕ → List ℕ → List ℕ → Result (List ℕ) × MStream → Type 0
Delivers n content rest r =
    (p : List ℕ) × (more : List ℕ) × (s : MStream) × (r ≡ (ok p, s))
    × (0 < length p)
    × (length p ≤ n)
    × (content ≡ p ++ more)
    × Carries s more rest

hand_out-Delivers :
    (n y : ℕ) (ys : List ℕ) (fs : List (List ℕ)) (rest : List ℕ) (s : MStream)
    → 0 < n
    → All IsChunk fs
    → s.raw_in.bytes ≡ wire_of fs ++ rest
    → s.at_eof ≡ false
    → Delivers n ((y ∷ ys) ++ flat fs) rest (hand_out n (y ∷ ys) s)
hand_out-Delivers n y ys fs rest s n_pos small wire live = (
  take n (y ∷ ys),
  drop n (y ∷ ys) ++ flat fs,
  record s { pending = drop n (y ∷ ys) },
  refl,
  omega (arith, length-take n (y ∷ ys)),
  omega (arith, length-take n (y ∷ ys)),
  ap (λ l. l ++ flat fs) (sym (take-append-drop n (y ∷ ys)))
      ∙ append_assoc (take n (y ∷ ys)) (drop n (y ∷ ys)) (flat fs),
  (fs, small, wire, refl, live),
)

read_frame :
    (s : MStream) (f : List ℕ) (fs : List (List ℕ)) (rest : List ℕ)
    → length f ≤ 32768
    → s.raw_in.bytes ≡ wire_of (f ∷ fs) ++ rest
    → read_packet 32768 s.raw_in
      ≡ (ok f, record { bytes = wire_of fs ++ rest; last = s.raw_in.last })
read_frame s f fs rest fits wire =
    ap (read_packet 32768) (λ i. record {
      bytes = (wire ∙ append_assoc (framed f) (wire_of fs) rest) i;
      last = s.raw_in.last;
    })
    ∙ read_packet-framed 32768 f (wire_of fs ++ rest) s.raw_in.last (omega arith) fits

read_pending-Delivers :
    (n : ℕ) (p : List ℕ) (fs : List (List ℕ)) (s : MStream) (rest : List ℕ)
    → 0 < n
    → 0 < length (p ++ flat fs)
    → All IsChunk fs
    → s.raw_in.bytes ≡ wire_of fs ++ rest
    → s.at_eof ≡ false
    → Delivers n (p ++ flat fs) rest (read_pending n p s)
read_pending-Delivers n (x ∷ xs) fs s rest n_pos c_pos small wire live =
    hand_out-Delivers n x xs fs rest s n_pos small wire live
read_pending-Delivers n [] [] s rest n_pos c_pos small wire live = absurd (omega arith)
read_pending-Delivers n [] ([] ∷ fs) s rest n_pos c_pos small wire live = absurd (omega arith)
read_pending-Delivers n [] ((y ∷ ys) ∷ fs) s rest n_pos c_pos small wire live =
    subst (Delivers n (y ∷ ys ++ flat fs) rest)
      (λ i.
        if (sym live) i
        then (err eof, s)
        else refill n s (sym (read_frame s (y ∷ ys) fs rest (omega arith) wire) i))
      (hand_out-Delivers n y ys fs rest
        (record s { raw_in = record { bytes = wire_of fs ++ rest; last = s.raw_in.last } }) n_pos
        small.1 refl live)

suc_ne_zero : (n : ℕ) → (suc n == 0) ≡ false
suc_ne_zero n = ground arith

-- One Read into a buffer that is not empty, from a stream that has bytes: a piece of the content.
pub mstream_read-Delivers :
    (n : ℕ) (s : MStream) (content rest : List ℕ)
    → 0 < n
    → 0 < length content
    → Carries s content rest
    → Delivers n content rest (mstream_read n s)
unfolding mstream_read
mstream_read-Delivers zero s content rest n_pos c_pos c = absurd (omega arith)
mstream_read-Delivers (suc n) s content rest n_pos c_pos (fs, small, wire, held, live) =
    subst₂ (λ c r. Delivers (suc n) c rest r) held
      (λ i. if (sym (suc_ne_zero n)) i then (ok [], s) else read_pending (suc n) s.pending s)
      (read_pending-Delivers (suc n) s.pending fs s rest n_pos (rw held c_pos) small wire live)

-- What io.ReadFull delivers from a stream that has as many bytes as the buffer, or more.
abbrev pub Fills : List ℕ → List ℕ → List ℕ → Result (List ℕ) × MStream → Type 0
Fills want more rest r = (s : MStream) × (r ≡ (ok want, s)) × Carries s more rest

mstream_read_full_step :
    (fuel m : ℕ) (got p : List ℕ) (s s' : MStream)
    → mstream_read (suc m) s ≡ (ok p, s')
    → mstream_read_full (suc fuel) (suc m) got s
      ≡ mstream_read_full fuel (suc m - length p) (got ++ p) s'
unfolding mstream_read_full
mstream_read_full_step fuel m got p s s' e = rw (suc_ne_zero m, e, mstream_read_full) (rw e)

-- The loop of io.ReadFull: `want` is still to come.
pub mstream_read_full-Fills :
    (fuel m : ℕ) (want more got rest : List ℕ) (s : MStream)
    → length want ≡ m
    → m ≤ fuel
    → Carries s (want ++ more) rest
    → Fills (got ++ want) more rest (mstream_read_full fuel m got s)
mstream_read_full-Fills zero m [] more got rest s e h c =
    unfold mstream_read_full in (s, ground (arith, append-nil got), c)
mstream_read_full-Fills (suc fuel) m [] more got rest s e h c =
    unfold mstream_read_full in (s, ground (arith, append-nil got), c)
mstream_read_full-Fills zero m (x ∷ xs) more got rest s e h c = absurd (omega arith)
mstream_read_full-Fills (suc fuel) zero (x ∷ xs) more got rest s e h c = absurd (omega arith)
mstream_read_full-Fills (suc fuel) (suc m) (x ∷ xs) more got rest s e h c =
    let (p, left, s', read, p_pos, p_fits, cut, c') =
      mstream_read-Delivers (suc m) s ((x ∷ xs) ++ more) rest (omega arith) (omega arith) c in
    let (want', here, there) = append_split (x ∷ xs) more p left cut (omega arith) in
    let size : length (x ∷ xs) ≡ length p + length want' = ap length here ∙ length-append p want' in
    subst₂ (λ w r. Fills w more rest r) (append_assoc got p want' ∙ ap (◌++◌ got) (sym here))
      (sym (mstream_read_full_step fuel m got p s s' read))
      (mstream_read_full-Fills fuel (suc m - length p) want' more (got ++ p) rest s' (omega arith)
        (omega arith) (subst (λ l. Carries s' l rest) there c'))

-- A chunked stream delivers its bytes in the order in which they were written: io.ReadFull gets
-- exactly the next bytes of the content, however they were cut into frames.
pub mstream_read_full_lem :
    (want more rest : List ℕ) (s : MStream)
    → Carries s (want ++ more) rest
    → Fills want more rest (mstream_read_full (length want) (length want) [] s)
mstream_read_full_lem want more rest s c =
    mstream_read_full-Fills (length want) (length want) want more [] rest s refl (omega arith) c

-- ===== src/DebugCapture/Stream.antt =====
-- internal/debugcapture/pcapng.go: readPCAP on a whole pcap stream, in either byte order.
use quic_lab.Common.{
  ℕ, ◌+◌, ◌*◌, ◌/◌, ◌%◌, ◌^◌, ◌≤◌, ◌<◌, ◌≡◌, refl, ap, ◌∙◌, false, none, List, [], ◌∷◌, ◌++◌,
  append_assoc, append-nil, arith, ltb, length, length-append,
}
use quic_lab.Common.Bytes.{put_be, put_le, length-put_be, length-put_le}
use quic_lab.DebugCapture.{block, ByteOrder, word_at, bad_record, Emitter, little, big}
use quic_lab.DebugCapture.Blocks.{le_at-put_le, be_at-put_be}

pub record Record : Type 0 where
  pub seconds : ℕ
  pub micros : ℕ
  pub original : ℕ
  pub packet : List ℕ

abbrev pub IsRecord : Record → Type 0
IsRecord r =
    (r.seconds < 2 ^ 32)
    × (r.micros < 1_000_000)
    × (length r.packet ≤ 262144)
    × (length r.packet ≤ r.original)
    × (r.original < 2 ^ 32)

abbrev pub put_word : ByteOrder → ℕ → ℕ → List ℕ
put_word little k v = put_le k v
put_word big k v = put_be k v

-- A record and a file as tcpdump writes them; `filler` is the zone, the accuracy and the snap length.
abbrev pub record_header : ByteOrder → Record → List ℕ
record_header order r =
    put_word order 4 r.seconds
    ++ (put_word order 4 r.micros
        ++ (put_word order 4 (length r.packet) ++ put_word order 4 r.original))

abbrev pub write_records : ByteOrder → List Record → List ℕ
write_records order [] = []
write_records order (r ∷ rs) = record_header order r ++ (r.packet ++ write_records order rs)

abbrev pub file_header : ByteOrder → List ℕ → ℕ → List ℕ
file_header order filler link =
    put_word order 4 2712847316
    ++ (put_word order 2 2 ++ (put_word order 2 4 ++ (filler ++ put_word order 4 link)))

-- The enhanced packet block that a record stands for.
abbrev pub block_of : Record → List ℕ
block_of r = block 6 (
    put_le 4 0
    ++ (put_le 4 ((r.seconds * 1_000_000 + r.micros) / 2 ^ 32)
        ++ (put_le 4 ((r.seconds * 1_000_000 + r.micros) % 2 ^ 32)
            ++ (put_le 4 (length r.packet) ++ (put_le 4 r.original ++ r.packet)))))

-- An emitter that takes every block.
abbrev pub collector : Emitter (List (List ℕ))
collector = record { emit = λ b. λ bs. (none, bs ++ (b ∷ [])) }

pub word_at-put_word :
    (order : ByteOrder) (k v i : ℕ) (front back : List ℕ)
    → length front ≡ i
    → v < 256 ^ k
    → word_at order k i (front ++ (put_word order k v ++ back)) ≡ v
word_at-put_word little k v i front back h bound = le_at-put_le k v i front back h bound
word_at-put_word big k v i front back h bound = be_at-put_be k v i front back h bound

pub length-put_word : (order : ByteOrder) (k v : ℕ) → length (put_word order k v) ≡ k
length-put_word little k v = length-put_le k v
length-put_word big k v = length-put_be k v

pub length-record_header : (order : ByteOrder) (r : Record) → length (record_header order r) ≡ 16
length-record_header order r =
    let a = put_word order 4 r.seconds in
    let b = put_word order 4 r.micros in
    let c = put_word order 4 (length r.packet) in
    let d = put_word order 4 r.original in
    omega (
      arith,
      length-append a (b ++ (c ++ d)),
      length-append b (c ++ d),
      length-append c d,
      length-put_word order 4 r.seconds,
      length-put_word order 4 r.micros,
      length-put_word order 4 (length r.packet),
      length-put_word order 4 r.original,
    )

-- The four words of a record's header.
pub header_words :
    (order : ByteOrder) (r : Record)
    → IsRecord r
    → (word_at order 4 0 (record_header order r) ≡ r.seconds)
      × (word_at order 4 4 (record_header order r) ≡ r.micros)
      × (word_at order 4 8 (record_header order r) ≡ length r.packet)
      × (word_at order 4 12 (record_header order r) ≡ r.original)
header_words order r (s, m, l, o, t) =
    let a = put_word order 4 r.seconds in
    let b = put_word order 4 r.micros in
    let c = put_word order 4 (length r.packet) in
    let d = put_word order 4 r.original in
    let la = length-put_word order 4 r.seconds in
    let lb = length-put_word order 4 r.micros in
    let lc = length-put_word order 4 (length r.packet) in
    let three : a ++ (b ++ (c ++ d)) ≡ (a ++ b) ++ (c ++ d) = simp append_assoc in
    let four : a ++ (b ++ (c ++ d)) ≡ ((a ++ b) ++ c) ++ (d ++ []) =
      simp (append_assoc, append-nil) in
    (
      word_at-put_word order 4 r.seconds 0 [] (b ++ (c ++ d)) refl (omega arith),
      word_at-put_word order 4 r.micros 4 a (c ++ d) la (omega arith),
      ap (word_at order 4 8) three
          ∙ word_at-put_word order 4 (length r.packet) 8 (a ++ b) d
              (omega (arith, length-append a b, la, lb)) (omega arith),
      ap (word_at order 4 12) four
          ∙ word_at-put_word order 4 r.original 12 ((a ++ b) ++ c) []
              (omega (arith, length-append (a ++ b) c, length-append a b, la, lb, lc))
              (omega arith),
    )

pub accepted :
    (order : ByteOrder) (r : Record) → IsRecord r → bad_record order (record_header order r) ≡ false
accepted order r good =
    let (w0, w4, w8, w12) = header_words order r good in rw (w4, w8, w12) (ground arith)

pub not_short : (a b : ℕ) → b ≤ a → ltb a b ≡ false
not_short a b h = ground arith

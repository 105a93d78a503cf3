-- ===== src/DebugCapture/Reading.antt =====
-- internal/debugcapture/pcapng.go: readPCAP emits one block for each record of a file.
use mathlib.Core.Path.{subst}
use quic_lab.Common.{
  ℕ, zero, suc, ◌+◌, ◌*◌, ◌%◌, ◌^◌, ◌<◌, ◌≡◌, refl, ap, ◌∙◌, false, some, List, [], ◌∷◌, ◌++◌, map,
  append_assoc, append-nil, arith, ltb, length, take, drop, All, length-append, take_prefix,
  drop_prefix, eof,
}
use quic_lab.Common.Bytes.{put_be, put_le, get_le, le_at}
use quic_lab.DebugCapture.{
  section_blocks, ByteOrder, word_at, order_of, read_records, read_pcap, little, big,
}
use quic_lab.DebugCapture.Stream.{
  Record, IsRecord, put_word, record_header, write_records, file_header, block_of, collector,
  word_at-put_word, length-put_word, length-record_header, header_words, accepted, not_short,
}

-- One round of the loop on a record that stands at the front.
read_one :
    (fuel : ℕ) (order : ByteOrder) (r : Record) (rest : List ℕ) (blocks : List (List ℕ))
    → IsRecord r
    → read_records collector (suc fuel) order (record_header order r ++ (r.packet ++ rest)) blocks
      ≡ read_records collector fuel order rest (blocks ++ (block_of r ∷ []))
unfolding read_records
read_one fuel order r rest blocks good =
    let bytes = record_header order r ++ (r.packet ++ rest) in
    let size = length-record_header order r in
    let head : take 16 bytes ≡ record_header order r =
      subst (λ n. take n bytes ≡ record_header order r) size
        (take_prefix (record_header order r) (r.packet ++ rest)) in
    let tail : drop 16 bytes ≡ r.packet ++ rest =
      subst (λ n. drop n bytes ≡ r.packet ++ rest) size
        (drop_prefix (record_header order r) (r.packet ++ rest)) in
    let (w0, w4, w8, w12) = header_words order r good in
    let long : ltb (length bytes) 16 ≡ false =
      not_short (length bytes) 16
        (omega (arith, length-append (record_header order r) (r.packet ++ rest), size)) in
    let enough : ltb (length (r.packet ++ rest)) (length r.packet) ≡ false =
      not_short (length (r.packet ++ rest)) (length r.packet)
        (omega (arith, length-append r.packet rest)) in
    let stamp : (r.seconds * 1_000_000 + r.micros) % 2 ^ 64 ≡ r.seconds * 1_000_000 + r.micros =
      omega (arith, good) in
    rw (long, head, tail, accepted order r good, w0, w4, w8, w12, enough, stamp)
      (rw (take_prefix r.packet rest, drop_prefix r.packet rest) refl)

read_records-write_records :
    (fuel : ℕ) (order : ByteOrder) (rs : List Record) (blocks : List (List ℕ))
    → All IsRecord rs
    → length (write_records order rs) < fuel
    → read_records collector fuel order (write_records order rs) blocks
      ≡ (eof, blocks ++ map block_of rs)
unfolding read_records
read_records-write_records zero order rs blocks good enough = absurd (omega arith)
read_records-write_records (suc fuel) order [] blocks good enough = rw (append-nil blocks) refl
read_records-write_records (suc fuel) order (r ∷ rs) blocks (good, others) enough =
    read_one fuel order r (write_records order rs) blocks good
    ∙ read_records-write_records fuel order rs (blocks ++ (block_of r ∷ [])) others (
        omega (
          arith,
          length-append (record_header order r) (r.packet ++ write_records order rs),
          length-append r.packet (write_records order rs),
          length-record_header order r,
        ))
    ∙ ap (λ bs. (eof, bs)) (append_assoc blocks (block_of r ∷ []) (map block_of rs))

abbrev IsHeader : List ℕ → ℕ → Type 0
IsHeader filler link = (length filler ≡ 12) × (link < 65536)

length-file_header :
    (order : ByteOrder) (filler : List ℕ) (link : ℕ)
    → IsHeader filler link
    → length (file_header order filler link) ≡ 24
length-file_header order filler link (size, small) =
    let magic = put_word order 4 2712847316 in
    let major = put_word order 2 2 in
    let minor = put_word order 2 4 in
    let last = put_word order 4 link in
    omega (
      arith,
      length-append magic (major ++ (minor ++ (filler ++ last))),
      length-append major (minor ++ (filler ++ last)),
      length-append minor (filler ++ last),
      length-append filler last,
      length-put_word order 4 2712847316,
      length-put_word order 2 2,
      length-put_word order 2 4,
      length-put_word order 4 link,
      size,
    )

magic_order :
    (order : ByteOrder) (back : List ℕ)
    → order_of (le_at 4 0 (put_word order 4 2712847316 ++ back)) ≡ some order
unfolding le_at get_le put_le put_be
magic_order little back = refl
magic_order big back = refl

file_words :
    (order : ByteOrder) (filler : List ℕ) (link : ℕ) (rest : List ℕ)
    → IsHeader filler link
    → (order_of (le_at 4 0 (file_header order filler link ++ rest)) ≡ some order)
      × (word_at order 2 4 (file_header order filler link ++ rest) ≡ 2)
      × (word_at order 2 6 (file_header order filler link ++ rest) ≡ 4)
      × (word_at order 4 20 (file_header order filler link ++ rest) ≡ link)
file_words order filler link rest (size, small) =
    let magic = put_word order 4 2712847316 in
    let major = put_word order 2 2 in
    let minor = put_word order 2 4 in
    let last = put_word order 4 link in
    let l4 = length-put_word order 4 2712847316 in
    let two : file_header order filler link ++ rest
        ≡ magic ++ (major ++ (minor ++ (filler ++ (last ++ rest)))) =
      simp append_assoc in
    let three : file_header order filler link ++ rest
        ≡ (magic ++ major) ++ (minor ++ (filler ++ (last ++ rest))) =
      simp append_assoc in
    let four : file_header order filler link ++ rest
        ≡ (((magic ++ major) ++ minor) ++ filler) ++ (last ++ rest) =
      simp append_assoc in
    let m = length-append magic major in
    let mm = length-append (magic ++ major) minor in
    let mf = length-append ((magic ++ major) ++ minor) filler in
    let l2 = length-put_word order 2 2 in
    let l2' = length-put_word order 2 4 in
    (
      ap (λ b. order_of (le_at 4 0 b)) two
          ∙ magic_order order (major ++ (minor ++ (filler ++ (last ++ rest)))),
      ap (word_at order 2 4) two
          ∙ word_at-put_word order 2 2 4 magic (minor ++ (filler ++ (last ++ rest))) l4
              (omega arith),
      ap (word_at order 2 6) three
          ∙ word_at-put_word order 2 4 6 (magic ++ major) (filler ++ (last ++ rest))
              (omega (arith, m, l4, l2)) (omega arith),
      ap (word_at order 4 20) four
          ∙ word_at-put_word order 4 link 20 (((magic ++ major) ++ minor) ++ filler) rest
              (omega (arith, m, mm, mf, l4, l2, l2', size)) (omega arith),
    )

-- Read a classic microsecond pcap file, in either byte order, of a 16-bit link type and of records
-- with at most 262144 captured bytes, no more than the packet had, and less than a million
-- microseconds. If every block is taken, readPCAP ends with io.EOF and emits the section block with
-- the link type and then one enhanced packet block for each record, in order, with the record's
-- time, lengths and bytes.
pub read_pcap-write_records :
    (order : ByteOrder) (filler : List ℕ) (link : ℕ) (rs : List Record)
    → IsHeader filler link
    → All IsRecord rs
    → read_pcap collector (file_header order filler link ++ write_records order rs) []
      ≡ (eof, section_blocks link ∷ map block_of rs)
unfolding read_pcap
read_pcap-write_records order filler link rs good records =
    let bytes = file_header order filler link ++ write_records order rs in
    let size = length-file_header order filler link good in
    let whole = length-append (file_header order filler link) (write_records order rs) in
    let long : ltb (length bytes) 24 ≡ false =
      not_short (length bytes) 24 (omega (arith, whole, size)) in
    let (o, major, minor, l) = file_words order filler link (write_records order rs) good in
    let small : ltb 65535 link ≡ false = not_short 65535 link (omega (arith, good)) in
    let tail : drop 24 bytes ≡ write_records order rs =
      subst (λ n. drop n bytes ≡ write_records order rs) size
        (drop_prefix (file_header order filler link) (write_records order rs)) in
    rw (long, o, major, minor, l, small, tail)
      (read_records-write_records (length bytes) order rs (section_blocks link ∷ []) records
        (omega (arith, whole, size)))

-- ===== src/DebugCapture.antt =====
-- internal/debugcapture/pcapng.go: a pcap stream turned into pcapng blocks.
-- A slice is a byte list and a uint32 is a number below 2 ^ 32.
pub mod Blocks
pub mod Stream
pub mod Reading
pub mod Session
pub mod Manager
pub mod Bounds
pub mod Listeners
pub mod Retention
pub mod Starting
pub mod Exclusion
pub mod Packets
pub mod Keys
pub mod Flows
pub mod Users
use quic_lab.Common.{
  ℕ, zero, suc, ◌+◌, ◌-◌, ◌*◌, ◌/◌, ◌%◌, ◌^◌, Bool, not, ◌||◌, Option, none, some, List, [], ◌∷◌,
  ◌++◌, ltb, leb, ◌==◌, if◌then◌else◌, length, take, drop, replicate, GoError, eof, unexpected_eof,
  message,
}
use quic_lab.Common.Bytes.{put_le, be_at, le_at}

abbrev pub padding : ℕ → ℕ
padding n = (n + 3) / 4 * 4 - n

-- block: type, length, body padded to four bytes, length.
unfoldable pub block : ℕ → List ℕ → List ℕ
unfolding put_le
block kind body =
    let size = (length body + 3) / 4 * 4 + 12 in
    put_le 4 kind
    ++ (put_le 4 (size % 2 ^ 32)
        ++ (body ++ (replicate (padding (length body)) 0 ++ put_le 4 (size % 2 ^ 32))))

-- section: the section header and the description of the one interface.
unfoldable pub section_blocks : ℕ → List ℕ
unfolding block put_le
section_blocks link =
    block 168627466
      (put_le 4 439041101 ++ (put_le 2 1 ++ (put_le 2 0 ++ put_le 8 18446744073709551615)))
    ++ block 1 (put_le 2 (link % 65536) ++ (put_le 2 0 ++ put_le 4 262144))

unfoldable pub secrets : List ℕ → List ℕ
unfolding block put_le
secrets p = block 10 (put_le 4 1414288203 ++ (put_le 4 (length p % 2 ^ 32) ++ p))

pub data ByteOrder : Type 0 where
  little big : ByteOrder

-- order.Uint32 and order.Uint16 at an offset.
abbrev pub word_at : ByteOrder → ℕ → ℕ → List ℕ → ℕ
word_at little n i b = le_at n i b
word_at big n i b = be_at n i b

abbrev pub order_of : ℕ → Option ByteOrder
order_of magic =
    if magic == 2712847316 then some little else (if magic == 3569595041 then some big else none)

-- The enhanced packet block of one record: its header and its bytes.
unfoldable pub packet_block : ByteOrder → List ℕ → List ℕ → List ℕ
unfolding block put_le le_at be_at
packet_block order h packet =
    let stamp = (word_at order 4 0 h * 1_000_000 + word_at order 4 4 h) % 2 ^ 64 in
    block 6 (
      put_le 4 0
      ++ (put_le 4 (stamp / 2 ^ 32)
          ++ (put_le 4 (stamp % 2 ^ 32)
              ++ (put_le 4 (word_at order 4 8 h) ++ (put_le 4 (word_at order 4 12 h) ++ packet)))))

abbrev pub bad_record : ByteOrder → List ℕ → Bool
bad_record order h =
    ltb 262144 (word_at order 4 8 h)
    || ltb (word_at order 4 12 h) (word_at order 4 8 h)
    || leb 1_000_000 (word_at order 4 4 h)

-- io.ReadFull on a stream that ends: the two errors of a short read.
abbrev pub short_error : List ℕ → GoError
short_error [] = eof
short_error (x ∷ xs) = unexpected_eof

-- What `emit` does with each block: the session that it fills, or the error that ends the loop.
pub record Emitter {ℓ} (S : Type ℓ) : Type ℓ where
  pub emit : List ℕ → S → Option GoError × S

module _ {ℓ} {S : Type ℓ} (emitter : Emitter S) where
  abbrev pub and_then : Option GoError × S → (S → GoError × S) → GoError × S
  and_then (some e, s) k = (e, s)
  and_then (none, s) k = k s

  -- The loop of readPCAP: it always ends with an error, io.EOF at the end of the stream. Each round
  -- takes 16 bytes, so the length of the stream is enough fuel.
  unfoldable pub read_records : ℕ → ByteOrder → List ℕ → S → GoError × S
  unfolding le_at be_at packet_block
  read_records zero order bytes s = (eof, s)
  read_records (suc fuel) order bytes s =
      let h = take 16 bytes in
      let rest = drop 16 bytes in
      let size = word_at order 4 8 h in
      let later = read_records fuel order (drop size rest) in
      if ltb (length bytes) 16
      then (short_error bytes, s)
      else if bad_record order h
      then (message "invalid capture record", s)
      else if ltb (length rest) size
      then (short_error rest, s)
      else and_then (emitter.emit (packet_block order h (take size rest)) s) later

  abbrev pub read_body : ByteOrder → List ℕ → S → GoError × S
  read_body order bytes s =
      if not (word_at order 2 4 bytes == 2) || not (word_at order 2 6 bytes == 4)
      then (message "unsupported pcap version", s)
      else if ltb 65535 (word_at order 4 20 bytes)
      then (message "unsupported link type", s)
      else and_then (emitter.emit (section_blocks (word_at order 4 20 bytes)) s)
          (read_records (length bytes) order (drop 24 bytes))

  abbrev pub read_ordered : Option ByteOrder → List ℕ → S → GoError × S
  read_ordered none bytes s = (message "tcpdump must emit classic microsecond pcap", s)
  read_ordered (some order) bytes s = read_body order bytes s

  -- readPCAP; what it sends on `ready` is the error of the part before the loop.
  unfoldable pub read_pcap : List ℕ → S → GoError × S
  unfolding le_at be_at section_blocks read_records
  read_pcap bytes s =
      if ltb (length bytes) 24
      then (short_error bytes, s)
      else read_ordered (order_of (le_at 4 0 bytes)) bytes s

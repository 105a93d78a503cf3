-- ===== src/DebugCapture/Users/Filter.antt =====
-- internal/debugcapture/user.go: what captureAWG lets into the capture of an account.
use quic_lab.Common.{
  ℕ, zero, suc, ◌+◌, ◌*◌, ◌/◌, ◌%◌, ◌^◌, ◌≡◌, refl, sym, true, not, ◌||◌, Option, none, some, List,
  [], ◌∷◌, ◌++◌, append_assoc, append-nil, arith, ltb, ◌==◌, if_cases, length, take, drop, All,
  All-append, GoError,
}
use quic_lab.DebugCapture.{
  block, section_blocks, ByteOrder, word_at, order_of, packet_block, bad_record, Emitter, and_then,
  read_records, read_body, read_ordered, read_pcap,
}
use quic_lab.DebugCapture.Session.{max_bytes, is_running, Session, emit}
use quic_lab.DebugCapture.Flows.{comment_body, packet_at}
use quic_lab.DebugCapture.Users.{
  link_offset, has_address, own_packet, put_own, filter_frame, filter_block, read_awg,
}
use quic_lab.Common.Bytes.{be_at, le_at}

-- What every emit keeps, readPCAP keeps.
module _ {ℓ κ} {S : Type ℓ} (emitter : Emitter S) (P : S → Type κ)
    (keeps : (b : List ℕ) (s : S) → P s → P (emitter.emit b s).1) where
  and_then-keeps :
      (r : Option GoError × S) (k : S → GoError × S)
      → P r.1
      → ((s : S) → P s → P (k s).1)
      → P (and_then emitter r k).1
  and_then-keeps (some e, s) k h next = h
  and_then-keeps (none, s) k h next = next s h

  records-keep :
      (fuel : ℕ) (order : ByteOrder) (bytes : List ℕ) (s : S)
      → P s
      → P (read_records emitter fuel order bytes s).1
  unfolding read_records
  records-keep zero order bytes s h = h
  records-keep (suc fuel) order bytes s h =
      if_cases R (ltb (length bytes) 16) _ _ (λ e. h)
        (λ e.
          if_cases R (bad_record order head) _ _ (λ e. h)
            (λ e.
              if_cases R (ltb (length rest) size) _ _ (λ e. h)
                (λ e.
                  and_then-keeps (emitter.emit (packet_block order head (take size rest)) s)
                    (read_records emitter fuel order (drop size rest))
                    (keeps (packet_block order head (take size rest)) s h)
                    (λ t g. records-keep fuel order (drop size rest) t g))))
    where
      R : GoError × S → Type κ
      R r = P r.1

      head : List ℕ
      head = take 16 bytes

      rest : List ℕ
      rest = drop 16 bytes

      size : ℕ
      size = word_at order 4 8 head

  read_body-keeps :
      (order : ByteOrder) (bytes : List ℕ) (s : S) → P s → P (read_body emitter order bytes s).1
  read_body-keeps order bytes s h =
      if_cases R (not (word_at order 2 4 bytes == 2) || not (word_at order 2 6 bytes == 4)) _ _
        (λ e. h)
        (λ e.
          if_cases R (ltb 65535 (word_at order 4 20 bytes)) _ _ (λ e. h)
            (λ e.
              and_then-keeps (emitter.emit (section_blocks (word_at order 4 20 bytes)) s)
                (read_records emitter (length bytes) order (drop 24 bytes))
                (keeps (section_blocks (word_at order 4 20 bytes)) s h)
                (λ t g. records-keep (length bytes) order (drop 24 bytes) t g)))
    where
      R : GoError × S → Type κ
      R r = P r.1

  read_ordered-keeps :
      (order : Option ByteOrder) (bytes : List ℕ) (s : S)
      → P s
      → P (read_ordered emitter order bytes s).1
  read_ordered-keeps none bytes s h = h
  read_ordered-keeps (some order) bytes s h = read_body-keeps order bytes s h

  pub read_pcap-keeps : (bytes : List ℕ) (s : S) → P s → P (read_pcap emitter bytes s).1
  unfolding read_pcap
  read_pcap-keeps bytes s h =
      if_cases (λ (r : GoError × S). P r.1) (ltb (length bytes) 24) _ _ (λ e. h)
        (λ e. read_ordered-keeps (order_of (le_at 4 0 bytes)) bytes s h)

-- The packet block of an IPv4 packet from or to the address.
abbrev pub IsOwnBlock : ℕ → List ℕ → Type 0
IsOwnBlock ip b =
    (p comment : List ℕ) × (micros : ℕ) × (b ≡ block 6 (comment_body p comment micros))
    × (be_at 1 0 p / 16 ≡ 4)
    × (has_address ip p ≡ true)

-- `s` is the session that `first` has become, with own packets added.
abbrev pub HasAdded : ℕ → Session → Session → Type 0
HasAdded ip first s =
    (news : List (List ℕ)) × (s.blocks ≡ first.blocks ++ news) × All (IsOwnBlock ip) news

packet_at-HasAdded :
    (ip now : ℕ) (p comment : List ℕ) (micros : ℕ) (first s : Session)
    → be_at 1 0 p / 16 ≡ 4
    → has_address ip p ≡ true
    → HasAdded ip first s
    → HasAdded ip first (packet_at now p comment micros s)
unfolding packet_at emit
packet_at-HasAdded ip now p comment micros first s four own (news, e, a) =
    if_cases (HasAdded ip first) (length p == 0 || ltb 65535 (length p)) _ _ (λ e'. (news, e, a))
      (λ e'.
        if_cases R (not (is_running s.state)) _ _ (λ f. (news, e, a))
          (λ f.
            if_cases R (ltb max_bytes (s.bytes + length b)) _ _ (λ g. (news, e, a))
              (λ g. (
                news ++ (b ∷ []),
                rw e (append_assoc first.blocks news (b ∷ [])),
                All-append (IsOwnBlock ip) news (b ∷ []) a
                    ((p, comment, micros % 2 ^ 64, refl, four, own), tt),
              ))))
  where
    b : List ℕ
    b = block 6 (comment_body p comment (micros % 2 ^ 64))

    R : Option GoError × Session → Type 0
    R r = HasAdded ip first r.1

abbrev IsOwnPacket : ℕ → Option (List ℕ) → Type 0
IsOwnPacket ip none = Unit {0}
IsOwnPacket ip (some p) = (be_at 1 0 p / 16 ≡ 4) × (has_address ip p ≡ true)

own_packet-IsOwnPacket :
    (ip offset : ℕ) (frame : List ℕ) → IsOwnPacket ip (own_packet ip offset frame)
own_packet-IsOwnPacket ip offset frame = ground arith

put_own-HasAdded :
    (ip now : ℕ) (comment : List ℕ) (micros : ℕ) (o : Option (List ℕ)) (first s : Session)
    → IsOwnPacket ip o
    → HasAdded ip first s
    → HasAdded ip first (put_own now comment micros o s)
put_own-HasAdded ip now comment micros none first s own h = h
put_own-HasAdded ip now comment micros (some p) first s (four, own) h =
    packet_at-HasAdded ip now p comment micros first s four own h

filter_frame-HasAdded :
    (ip now : ℕ) (comment : List ℕ) (micros : ℕ) (offset : Option ℕ) (frame : List ℕ) (link : ℕ)
    (first s : Session)
    → HasAdded ip first s
    → HasAdded ip first (filter_frame now ip comment micros offset frame (link, s)).1.1
filter_frame-HasAdded ip now comment micros none frame link first s h = h
filter_frame-HasAdded ip now comment micros (some offset) frame link first s h =
    put_own-HasAdded ip now comment micros (own_packet ip offset frame) first s
      (own_packet-IsOwnPacket ip offset frame) h

filter_block-HasAdded :
    (ip now : ℕ) (comment b : List ℕ) (first : Session) (st : ℕ × Session)
    → HasAdded ip first st.1
    → HasAdded ip first (filter_block now ip comment b st).1.1
unfolding filter_block
filter_block-HasAdded ip now comment b first (link, s) h =
    if_cases R (le_at 4 0 b == 168627466) _ _ (λ e. h)
      (λ e.
        if_cases R (ltb (length b) (28 + le_at 4 20 b + 4)) _ _ (λ f. h)
          (λ f.
            filter_frame-HasAdded ip now comment (le_at 4 12 b * 2 ^ 32 + le_at 4 16 b)
              (link_offset link) (take (le_at 4 20 b) (drop 28 b)) link first s h))
  where
    R : Option GoError × (ℕ × Session) → Type 0
    R r = HasAdded ip first r.1.1

-- Whatever tcpdump writes, the reader of captureAWG adds to the capture only IPv4 packets from or to
-- the address of the account, and takes away nothing.
pub read_awg-HasAdded :
    (now ip : ℕ) (comment bytes : List ℕ) (s : Session)
    → HasAdded ip s (read_awg now ip comment bytes s).1.1
unfolding read_awg
read_awg-HasAdded now ip comment bytes s =
    read_pcap-keeps (record { emit = filter_block now ip comment })
      (λ (st : ℕ × Session). HasAdded ip s st.1)
      (λ b st h. filter_block-HasAdded ip now comment b s st h) bytes (0, s)
      ([], sym (append-nil s.blocks), tt)

-- ===== src/DebugCapture/Packets.antt =====
-- internal/debugcapture/user.go: the packets that a capture of a user's flows is made of, checksum
-- and the headers that emit writes. A byte is a number below 256, an IPv4 address is its number.
pub mod Sums
pub mod Verified
pub mod Segments
pub mod Directed
use quic_lab.Common.{
  ℕ, zero, suc, ◌+◌, ◌-◌, ◌*◌, ◌/◌, ◌%◌, ◌^◌, Bool, true, false, not, Option, none, some, List, [],
  ◌∷◌, ◌++◌, ltb, ◌==◌, if◌then◌else◌, length,
}
use quic_lab.Common.Bytes.{put_be}

-- The first loop of checksum and the odd byte behind it; the sum is a uint32.
unfoldable pub sum_words : ℕ → List ℕ → ℕ
sum_words s [] = s
sum_words s (x ∷ []) = (s + x * 256) % 2 ^ 32
sum_words s (x ∷ y ∷ rest) = sum_words ((s + (x * 256 + y)) % 2 ^ 32) rest

-- `for s>>16 != 0`: the carries are added to the sum, at most `fuel` times.
unfoldable pub fold_carries : ℕ → ℕ → ℕ
fold_carries zero s = s
fold_carries (suc fuel) s =
    let folded = fold_carries fuel (s % 65536 + s / 65536) in
    if not (s / 65536 == 0) then folded else s

-- Two rounds are enough for a uint32.
abbrev pub fold_rounds : ℕ
fold_rounds = 2

unfoldable pub checksum : List ℕ → ℕ
unfolding sum_words fold_carries
checksum p = 65535 - fold_carries fold_rounds (sum_words 0 p) % 65536

-- capturedConn, less the connection below it and the states of the flow.
pub record Flow : Type 0 where
  pub udp : Bool
  pub src : ℕ
  pub dst : ℕ
  pub sport : ℕ
  pub dport : ℕ

pub record FlowState : Type 0 where
  pub up : ℕ
  pub down : ℕ

-- The twenty bytes of the IPv4 header, with a checksum written into them.
unfoldable pub ip_header : ℕ → ℕ → ℕ → ℕ → ℕ → List ℕ
unfolding put_be
ip_header size protocol src dst sum =
    put_be 2 17664
    ++ (put_be 2 (size % 65536)
        ++ (put_be 4 0
            ++ ((64 ∷ protocol ∷ []) ++ (put_be 2 sum ++ (put_be 4 src ++ put_be 4 dst)))))

unfoldable pub udp_segment : ℕ → ℕ → ℕ → List ℕ → List ℕ
unfolding put_be
udp_segment sp dp sum payload =
    put_be 2 sp
    ++ (put_be 2 dp ++ (put_be 2 ((8 + length payload) % 65536) ++ (put_be 2 sum ++ payload)))

-- What the TCP header says besides the ports.
pub record TcpFields : Type 0 where
  pub seq : ℕ
  pub ack : ℕ
  pub flags : ℕ

unfoldable pub tcp_segment : ℕ → ℕ → TcpFields → ℕ → List ℕ → List ℕ
unfolding put_be
tcp_segment sp dp f sum payload =
    put_be 2 sp
    ++ (put_be 2 dp
        ++ (put_be 4 f.seq
            ++ (put_be 4 (if f.flags / 16 % 2 == 0 then 0 else f.ack)
                ++ ((80 ∷ f.flags ∷ [])
                    ++ (put_be 2 65535 ++ (put_be 2 sum ++ (put_be 2 0 ++ payload)))))))

-- The bytes that the checksum of a segment covers: the addresses, the protocol, the length, the
-- segment.
unfoldable pub pseudo : ℕ → ℕ → ℕ → List ℕ → List ℕ
unfolding put_be
pseudo src dst protocol segment =
    put_be 4 src
    ++ (put_be 4 dst ++ ((0 ∷ protocol ∷ []) ++ (put_be 2 (length segment % 65536) ++ segment)))

unfoldable pub ip_packet : ℕ → ℕ → ℕ → List ℕ → List ℕ
unfolding ip_header checksum
ip_packet protocol src dst segment =
    let size = 20 + length segment in
    ip_header size protocol src dst (checksum (ip_header size protocol src dst 0)) ++ segment

-- A computed sum of zero is sent as all ones.
abbrev pub udp_sum : ℕ → ℕ
udp_sum sum = if sum == 0 then 65535 else sum

unfoldable pub udp_packet : ℕ → ℕ → ℕ → ℕ → List ℕ → List ℕ
unfolding ip_packet pseudo checksum udp_segment
udp_packet src dst sp dp payload = ip_packet 17 src dst (
    udp_segment sp dp (udp_sum (checksum (pseudo src dst 17 (udp_segment sp dp 0 payload))))
      payload)

unfoldable pub tcp_packet : ℕ → ℕ → ℕ → ℕ → TcpFields → List ℕ → List ℕ
unfolding ip_packet pseudo checksum tcp_segment
tcp_packet src dst sp dp f payload =
    ip_packet 6 src dst
      (tcp_segment sp dp f (checksum (pseudo src dst 6 (tcp_segment sp dp f 0 payload))) payload)

-- The packet in the direction `up`.
unfoldable pub directed_packet : Flow → FlowState → Bool → List ℕ → ℕ → List ℕ
unfolding udp_packet tcp_packet
directed_packet c state true payload flags =
    if c.udp
    then udp_packet c.src c.dst c.sport c.dport payload
    else tcp_packet c.src c.dst c.sport c.dport
        (record { seq = state.up; ack = state.down; flags = flags }) payload
directed_packet c state false payload flags =
    if c.udp
    then udp_packet c.dst c.src c.dport c.sport payload
    else tcp_packet c.dst c.src c.dport c.sport
        (record { seq = state.down; ack = state.up; flags = flags }) payload

-- What capturedConn.emit hands to the session; none when it would be too long.
unfoldable pub flow_packet : Flow → FlowState → Bool → List ℕ → ℕ → Option (List ℕ)
unfolding directed_packet
flow_packet c state up payload flags =
    if ltb 65535 (length payload + (if c.udp then 8 else 20) + 20)
    then none
    else some (directed_packet c state up payload flags)

-- ===== src/DebugCapture/Packets/Segments.antt =====
-- internal/debugcapture/user.go: a receiver accepts the UDP and the TCP segment that emit writes.
use quic_lab.Common.{
  ℕ, ◌+◌, ◌/◌, ◌%◌, ◌<◌, ◌≡◌, refl, List, [], ◌∷◌, ◌++◌, arith, ◌==◌, if◌then◌else◌, length, All,
  length-append, All-append,
}
use quic_lab.Common.Bytes.{IsByte, put_be, length-put_be, put_be-IsByte}
use quic_lab.DebugCapture.Packets.{
  checksum, udp_segment, TcpFields, tcp_segment, pseudo, udp_sum, udp_packet, tcp_packet,
}
use quic_lab.DebugCapture.Packets.Sums.{checksum-verifies, udp_sum-verifies}
use quic_lab.DebugCapture.Packets.Verified.{IsVerified, words-small, ip_packet-IsVerified}

abbrev pseudo_start : ℕ → ℕ → ℕ → ℕ → List ℕ
pseudo_start src dst protocol size =
    put_be 4 src ++ (put_be 4 dst ++ ((0 ∷ protocol ∷ []) ++ put_be 2 (size % 65536)))

pseudo_start-IsByte :
    (src dst protocol size : ℕ) → IsByte protocol → All IsByte (pseudo_start src dst protocol size)
unfolding put_be
pseudo_start-IsByte src dst protocol size h = ground arith

pseudo_front :
    (src dst protocol size : ℕ) (a : List ℕ) (n : ℕ)
    → length a ≡ n
    → length (pseudo_start src dst protocol size ++ a) ≡ 12 + n
unfolding put_be
pseudo_front src dst protocol size a n h = omega (arith, h)

pseudo-split :
    (src dst protocol : ℕ) (segment : List ℕ)
    → pseudo src dst protocol segment ≡ pseudo_start src dst protocol (length segment) ++ segment
unfolding pseudo put_be
pseudo-split src dst protocol segment = refl

abbrev udp_start : ℕ → ℕ → ℕ → List ℕ
udp_start sp dp size = put_be 2 sp ++ (put_be 2 dp ++ put_be 2 (size % 65536))

udp_front : (sp dp size : ℕ) → length (udp_start sp dp size) ≡ 6
unfolding put_be
udp_front sp dp size = refl

udp_start-IsByte : (sp dp size : ℕ) → All IsByte (udp_start sp dp size)
unfolding put_be
udp_start-IsByte sp dp size = ground arith

length-udp_segment :
    (sp dp v : ℕ) (payload : List ℕ) → length (udp_segment sp dp v payload) ≡ 8 + length payload
unfolding udp_segment put_be
length-udp_segment sp dp v payload = omega arith

udp_segment-split :
    (sp dp v : ℕ) (payload : List ℕ)
    → udp_segment sp dp v payload ≡ udp_start sp dp (8 + length payload) ++ (put_be 2 v ++ payload)
unfolding udp_segment put_be
udp_segment-split sp dp v payload = refl

udp_covered :
    (src dst sp dp v : ℕ) (payload : List ℕ)
    → pseudo src dst 17 (udp_segment sp dp v payload)
      ≡ (pseudo_start src dst 17 (8 + length payload) ++ udp_start sp dp (8 + length payload))
        ++ (put_be 2 v ++ payload)
unfolding put_be
udp_covered src dst sp dp v payload =
    rw
      (
        pseudo-split src dst 17 (udp_segment sp dp v payload),
        length-udp_segment sp dp v payload,
        udp_segment-split sp dp v payload,
      )
      refl

udp_segment_verifies :
    (src dst sp dp : ℕ) (payload : List ℕ)
    → All IsByte payload
    → 28 + length payload < 65536
    → checksum (
        pseudo src dst 17 (
          udp_segment sp dp
            (udp_sum (checksum (pseudo src dst 17 (udp_segment sp dp 0 payload))))
            payload))
      ≡ 0
udp_segment_verifies src dst sp dp payload h fits =
    rw
      (
        udp_covered src dst sp dp 0 payload,
        udp_covered src dst sp dp (udp_sum (checksum (front ++ (put_be 2 0 ++ payload)))) payload,
      )
      (udp_sum-verifies 9 front payload even (
        words-small front payload
          (All-append IsByte (pseudo_start src dst 17 (8 + length payload))
            (udp_start sp dp (8 + length payload))
            (pseudo_start-IsByte src dst 17 (8 + length payload) (omega arith))
            (udp_start-IsByte sp dp (8 + length payload)))
          h (omega (arith, even))))
  where
    front : List ℕ
    front = pseudo_start src dst 17 (8 + length payload) ++ udp_start sp dp (8 + length payload)

    even : length front ≡ 18
    even =
        pseudo_front src dst 17 (8 + length payload) (udp_start sp dp (8 + length payload)) 6
          (udp_front sp dp (8 + length payload))

pub udp_packet-IsVerified :
    (src dst sp dp : ℕ) (payload : List ℕ)
    → All IsByte payload
    → 28 + length payload < 65536
    → IsVerified 17 src dst (udp_packet src dst sp dp payload)
unfolding udp_packet
udp_packet-IsVerified src dst sp dp payload h fits =
    let sum = udp_sum (checksum (pseudo src dst 17 (udp_segment sp dp 0 payload))) in
    ip_packet-IsVerified 17 src dst (udp_segment sp dp sum payload) (omega arith)
      (omega (arith, length-udp_segment sp dp sum payload))
      (udp_segment_verifies src dst sp dp payload h fits)

abbrev tcp_start : ℕ → ℕ → TcpFields → List ℕ
tcp_start sp dp f =
    put_be 2 sp
    ++ (put_be 2 dp
        ++ (put_be 4 f.seq
            ++ (put_be 4 (if f.flags / 16 % 2 == 0 then 0 else f.ack)
                ++ ((80 ∷ f.flags ∷ []) ++ put_be 2 65535))))

tcp_front : (sp dp : ℕ) (f : TcpFields) → length (tcp_start sp dp f) ≡ 16
unfolding put_be
tcp_front sp dp f = refl

length-tcp_segment :
    (sp dp : ℕ) (f : TcpFields) (v : ℕ) (payload : List ℕ)
    → length (tcp_segment sp dp f v payload) ≡ 20 + length payload
unfolding tcp_segment put_be
length-tcp_segment sp dp f v payload = omega arith

tcp_segment-split :
    (sp dp : ℕ) (f : TcpFields) (v : ℕ) (payload : List ℕ)
    → tcp_segment sp dp f v payload ≡ tcp_start sp dp f ++ (put_be 2 v ++ (put_be 2 0 ++ payload))
unfolding tcp_segment put_be
tcp_segment-split sp dp f v payload = refl

tcp_covered :
    (src dst sp dp : ℕ) (f : TcpFields) (v : ℕ) (payload : List ℕ)
    → pseudo src dst 6 (tcp_segment sp dp f v payload)
      ≡ (pseudo_start src dst 6 (20 + length payload) ++ tcp_start sp dp f)
        ++ (put_be 2 v ++ (put_be 2 0 ++ payload))
unfolding put_be
tcp_covered src dst sp dp f v payload =
    rw
      (
        pseudo-split src dst 6 (tcp_segment sp dp f v payload),
        length-tcp_segment sp dp f v payload,
        tcp_segment-split sp dp f v payload,
      )
      refl

tcp_start-IsByte : (sp dp : ℕ) (f : TcpFields) → IsByte f.flags → All IsByte (tcp_start sp dp f)
unfolding put_be
tcp_start-IsByte sp dp f h = ground arith

tcp_segment_verifies :
    (src dst sp dp : ℕ) (f : TcpFields) (payload : List ℕ)
    → IsByte f.flags
    → All IsByte payload
    → 40 + length payload < 65536
    → checksum (
        pseudo src dst 6 (
          tcp_segment sp dp f
            (checksum (pseudo src dst 6 (tcp_segment sp dp f 0 payload)))
            payload))
      ≡ 0
tcp_segment_verifies src dst sp dp f payload hf h fits =
    rw
      (
        tcp_covered src dst sp dp f 0 payload,
        tcp_covered src dst sp dp f (checksum (front ++ (put_be 2 0 ++ (put_be 2 0 ++ payload))))
            payload,
      )
      (checksum-verifies 14 front (put_be 2 0 ++ payload) even (
        words-small front (put_be 2 0 ++ payload)
          (All-append IsByte (pseudo_start src dst 6 (20 + length payload)) (tcp_start sp dp f)
            (pseudo_start-IsByte src dst 6 (20 + length payload) (omega arith))
            (tcp_start-IsByte sp dp f hf))
          (All-append IsByte (put_be 2 0) payload (put_be-IsByte 2 0) h)
          (omega (arith, even, length-append (put_be 2 0) payload, length-put_be 2 0))))
  where
    front : List ℕ
    front = pseudo_start src dst 6 (20 + length payload) ++ tcp_start sp dp f

    even : length front ≡ 28
    even = pseudo_front src dst 6 (20 + length payload) (tcp_start sp dp f) 16 (tcp_front sp dp f)

pub tcp_packet-IsVerified :
    (src dst sp dp : ℕ) (f : TcpFields) (payload : List ℕ)
    → IsByte f.flags
    → All IsByte payload
    → 40 + length payload < 65536
    → IsVerified 6 src dst (tcp_packet src dst sp dp f payload)
unfolding tcp_packet
tcp_packet-IsVerified src dst sp dp f payload hf h fits =
    let sum = checksum (pseudo src dst 6 (tcp_segment sp dp f 0 payload)) in
    ip_packet-IsVerified 6 src dst (tcp_segment sp dp f sum payload) (omega arith)
      (omega (arith, length-tcp_segment sp dp f sum payload))
      (tcp_segment_verifies src dst sp dp f payload hf h fits)

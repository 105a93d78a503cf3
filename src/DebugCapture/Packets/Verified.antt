-- ===== src/DebugCapture/Packets/Verified.antt =====
-- internal/debugcapture/user.go: a receiver accepts every packet that emit writes.
use quic_lab.Common.{
  ℕ, ◌+◌, ◌%◌, ◌<◌, ◌≡◌, refl, List, [], ◌∷◌, ◌++◌, arith, length, take, drop, All, All-append,
}
use quic_lab.Common.Bytes.{IsByte, put_be, be_from, be_at, put_be-IsByte}
use quic_lab.DebugCapture.Packets.{checksum, ip_header, pseudo, ip_packet}
use quic_lab.DebugCapture.Packets.Sums.{words, words_bound, checksum-verifies}

-- What a receiver checks: the header's checksum, the one of the segment, and the length.
abbrev pub IsVerified : ℕ → ℕ → ℕ → List ℕ → Type 0
IsVerified protocol src dst p =
    (checksum (take 20 p) ≡ 0)
    × (checksum (pseudo src dst protocol (drop 20 p)) ≡ 0)
    × (be_at 2 2 p ≡ length p)

pub words-small :
    (a b : List ℕ)
    → All IsByte a
    → All IsByte b
    → length a + length b < 65600
    → words a + words b < 3_000_000_000
words-small a b ha hb h = omega (arith, words_bound a ha, words_bound b hb)

abbrev header_start : ℕ → ℕ → List ℕ
header_start size protocol =
    put_be 2 17664 ++ (put_be 2 (size % 65536) ++ (put_be 4 0 ++ (64 ∷ protocol ∷ [])))

abbrev pub address_bytes : ℕ → ℕ → List ℕ
address_bytes src dst = put_be 4 src ++ put_be 4 dst

address_bytes-IsByte : (src dst : ℕ) → All IsByte (address_bytes src dst)
address_bytes-IsByte src dst =
    All-append IsByte (put_be 4 src) (put_be 4 dst) (put_be-IsByte 4 src) (put_be-IsByte 4 dst)

header_start-IsByte :
    (size protocol : ℕ) → IsByte protocol → All IsByte (header_start size protocol)
unfolding put_be
header_start-IsByte size protocol h = ground arith

ip_header-verifies :
    (size protocol src dst : ℕ)
    → IsByte protocol
    → checksum (ip_header size protocol src dst (checksum (ip_header size protocol src dst 0))) ≡ 0
unfolding ip_header put_be
ip_header-verifies size protocol src dst h =
    checksum-verifies 5 (header_start size protocol) (address_bytes src dst) refl (
      words-small (header_start size protocol) (address_bytes src dst)
        (header_start-IsByte size protocol h) (address_bytes-IsByte src dst) (omega arith))

pub ip_packet-IsVerified :
    (protocol src dst : ℕ) (segment : List ℕ)
    → IsByte protocol
    → 20 + length segment < 65536
    → checksum (pseudo src dst protocol segment) ≡ 0
    → IsVerified protocol src dst (ip_packet protocol src dst segment)
unfolding ip_packet ip_header put_be be_at be_from
ip_packet-IsVerified protocol src dst segment h fits e =
    (ip_header-verifies (20 + length segment) protocol src dst h, e, omega arith)

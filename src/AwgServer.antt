-- ===== src/AwgServer.antt =====
-- internal/awgserver/config.go: the configuration and the data shared with the AWG worker.
-- A Go `int` is an integer of any size, and a duration is the 64 bits of its nanoseconds. An address
-- of the pool is its number.
pub mod Pool
pub mod Worker
use quic_lab.Common.{
  ℕ, ◌+◌, ◌-◌, ◌*◌, ◌%◌, ◌^◌, String, Bool, true, false, not, ◌&&◌, ◌||◌, Option, none, some, List,
  [], ◌∷◌, ltb, leb, ◌==◌, if◌then◌else◌, is_some, length,
}
use quic_lab.Common.Bytes.{same, member}
use quic_lab.Net.{
  ℤ, in_range, atoi, parse_ip4, Prefix, masked, contains, parse_prefix, split_host_port, pos,
  negsuc,
}

pub record Config : Type 0 where
  pub health_seconds : ℤ
  pub offline_seconds : ℤ
  pub endpoint : List ℕ
  pub address : List ℕ
  pub dns : List ℕ
  pub allowed_ips : List (List ℕ)
  pub interface : List ℕ
  pub mtu : ℤ

pub record Identity : Type 0 where
  pub private_key : List ℕ
  pub public_key : List ℕ
  pub headers : List ℕ

pub record Peer : Type 0 where
  pub private_key : List ℕ
  pub public_key : List ℕ
  pub psk : List ℕ
  pub address : ℕ

abbrev pub second : ℕ
second = 1_000_000_000

-- `time.Duration(n) * time.Second`, whose product wraps.
abbrev pub seconds : ℤ → ℕ
seconds (pos n) = n * second % 2 ^ 64
seconds (negsuc n) = (2 ^ 64 - (n + 1) * second % 2 ^ 64) % 2 ^ 64

abbrev pub is_zero : ℤ → Bool
is_zero (pos n) = n == 0
is_zero (negsuc n) = false

unfoldable pub health_interval : Config → ℕ
health_interval c = if is_zero c.health_seconds then 25 * second else seconds c.health_seconds

unfoldable pub offline_after : Config → ℕ
offline_after c = if is_zero c.offline_seconds then 75 * second else seconds c.offline_seconds

-- `low <= d && d <= high` on signed durations: a negative one has bits above every `high` here.
abbrev pub between : ℕ → ℕ → ℕ → Bool
between low high d = leb low d && leb d high

abbrev pub is_separator : ℕ → Bool
is_separator c = c == 13 || c == 10 || c == 9 || c == 32 || c == b';' || c == b'#'

abbrev pub has_separator : List ℕ → Bool
has_separator [] = false
has_separator (c ∷ cs) = is_separator c || has_separator cs

abbrev pub port_ok : Option ℤ → Bool
port_ok none = false
port_ok (some n) = in_range 1 65535 n

abbrev pub endpoint_ok : Option (List ℕ × List ℕ) → Bool
endpoint_ok none = false
endpoint_ok (some (host, port)) =
    not (length host == 0) && not (has_separator host) && port_ok (atoi port)

abbrev pub address_ok : Option Prefix → Bool
address_ok none = false
address_ok (some p) =
    leb 16 p.bits && leb p.bits 29 && not (p.addr == (masked p).addr) && contains p (p.addr + 1)

abbrev pub all_prefixes : List (List ℕ) → Bool
all_prefixes [] = true
all_prefixes (v ∷ vs) = is_some (parse_prefix v) && all_prefixes vs

abbrev pub worker_interface : List ℕ
worker_interface = b'q' ∷ b'l' ∷ b'-' ∷ b'a' ∷ b'w' ∷ b'g' ∷ b'0' ∷ []

-- Config.Validate.
unfoldable pub validate : Config → Option String
unfolding health_interval offline_after split_host_port atoi parse_prefix parse_ip4 same
validate c =
    if not (between (10 * second) (300 * second) (health_interval c))
      || not (between (2 * health_interval c) (3600 * second) (offline_after c))
    then some
        "AWG health interval must be 10..300 seconds; offline timeout >= 2 intervals and <= 3600 seconds"
    else if not (endpoint_ok (split_host_port c.endpoint))
    then some "AWG endpoint must be host:port"
    else if not (address_ok (parse_prefix c.address))
    then some "AWG address must be a host IPv4 /16../29"
    else if not (is_some (parse_ip4 c.dns))
    then some "AWG DNS must be IPv4"
    else if not (same c.interface worker_interface)
    then some "AWG interface must be ql-awg0"
    else if not (in_range 1280 1420 c.mtu)
    then some "AWG MTU must be 1280..1420"
    else if length c.allowed_ips == 0
    then some "AWG AllowedIPs required"
    else if all_prefixes c.allowed_ips
    then none
    else some "AWG supports IPv4 AllowedIPs"

abbrev pub quic : List ℕ
quic = b'q' ∷ b'u' ∷ b'i' ∷ b'c' ∷ []

abbrev pub https : List ℕ
https = b'h' ∷ b't' ∷ b't' ∷ b'p' ∷ b's' ∷ []

abbrev pub awg : List ℕ
awg = b'a' ∷ b'w' ∷ b'g' ∷ []

-- Enabled; `none` is the nil slice of an account made before the protocols could be chosen.
unfoldable pub enabled : Option (List (List ℕ)) → List ℕ → Bool
unfolding same member
enabled none protocol = same protocol quic || same protocol https
enabled (some ps) protocol = member protocol ps

-- The headers of NewIdentity: random words are drawn until four are above 4 and distinct. `none` is
-- a source that gave out.
abbrev pub contains_word : ℕ → List ℕ → Bool
contains_word n [] = false
contains_word n (m ∷ ms) = m == n || contains_word n ms

abbrev pub prepend_if : Bool → ℕ → Option (List ℕ) → Option (List ℕ)
prepend_if true w (some ws) = some (w ∷ ws)
prepend_if other w rest = rest

unfoldable pub draw_headers : ℕ → List ℕ → List ℕ → Option (List ℕ)
draw_headers left seen [] = if left == 0 then some [] else none
draw_headers left seen (w ∷ words) =
    let good = ltb 4 w && not (contains_word w seen) in
    let rest =
      draw_headers (if good then left - 1 else left) (if good then w ∷ seen else seen) words in
    if left == 0 then some [] else prepend_if good w rest

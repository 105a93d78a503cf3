-- ===== src/Net.antt =====
-- What the sources use of Go's strconv, strings, net and net/netip, on texts as lists of bytes.
-- An address is an IPv4 address, a number below 2 ^ 32. `parse_ip4` fails on every text that
-- netip.ParseAddr refuses or reads as an IPv6 address: the callers treat both alike.
pub mod Prefixes
pub mod Printing
use quic_lab.Common.{
  ℕ, zero, suc, ◌+◌, ◌-◌, ◌*◌, ◌/◌, ◌^◌, Bool, true, false, ◌&&◌, ◌||◌, Option, none, some, List,
  [], ◌∷◌, ltb, leb, ◌==◌, if◌then◌else◌, length,
}
use mathlib.Core.List.{reverse}

-- The conditions of Go on signed integers are tests against non-negative bounds.
pub data ℤ : Type 0 where
  pos : ℕ → ℤ
  negsuc : ℕ → ℤ

abbrev pub negate : ℕ → ℤ
negate zero = pos zero
negate (suc n) = negsuc n

-- lo ≤ z && z ≤ hi
abbrev pub in_range : ℕ → ℕ → ℤ → Bool
in_range lo hi (pos n) = leb lo n && leb n hi
in_range lo hi (negsuc n) = false

abbrev pub is_digit : ℕ → Bool
is_digit c = leb b'0' c && leb c b'9'

unfoldable pub digits : ℕ → List ℕ → Option ℕ
digits acc [] = some acc
digits acc (c ∷ cs) =
    let rest = digits (acc * 10 + (c - b'0')) cs in if is_digit c then rest else none

-- One digit at least.
unfoldable pub number : List ℕ → Option ℕ
unfolding digits
number [] = none
number (c ∷ cs) = digits 0 (c ∷ cs)

abbrev pub up_to : ℕ → (ℕ → ℤ) → Option ℕ → Option ℤ
up_to limit sign none = none
up_to limit sign (some n) = if leb n limit then some (sign n) else none

-- strconv.Atoi, with a 64-bit int.
unfoldable pub atoi : List ℕ → Option ℤ
unfolding number
atoi [] = none
atoi (c ∷ cs) =
    if c == b'-'
    then up_to (2 ^ 63) negate (number cs)
    else (if c == b'+'
        then up_to (2 ^ 63 - 1) pos (number cs)
        else up_to (2 ^ 63 - 1) pos (number (c ∷ cs)))

-- The loop of netip's parseIPv4Fields: the octet so far and its digits, the octets before it.
unfoldable pub ip4_loop : ℕ → ℕ → ℕ → ℕ → List ℕ → Option ℕ
ip4_loop val len count acc [] = if ltb count 3 then none else some (acc * 256 + val)
ip4_loop val len count acc (c ∷ cs) =
    let val' = val * 10 + (c - b'0') in
    let digit = ip4_loop val' (len + 1) count acc cs in
    let next = ip4_loop 0 0 (count + 1) (acc * 256 + val) cs in
    if is_digit c
    then (if (len == 1 && val == 0) || ltb 255 val' then none else digit)
    else (if c == b'.'
        then (if len == 0 || length cs == 0 || count == 3 then none else next)
        else none)

unfoldable pub parse_ip4 : List ℕ → Option ℕ
unfolding ip4_loop
parse_ip4 s = ip4_loop 0 0 0 0 s

-- The part before the last `c` and the part behind it.
unfoldable pub split_last : ℕ → List ℕ → Option (List ℕ × List ℕ)
split_last c [] = none
split_last c (x ∷ xs) = elim (split_last c xs) [
  | some (a, b) ↦ some (x ∷ a, b)
  | none ↦ if x == c then some ([], xs) else none
]

-- The part before the first `c` and the part behind it (strings.Cut with one byte).
unfoldable pub split_first : ℕ → List ℕ → Option (List ℕ × List ℕ)
split_first c [] = none
split_first c (x ∷ xs) = elim (split_first c xs) [
  | some (a, b) ↦ if x == c then some ([], xs) else some (x ∷ a, b)
  | none ↦ if x == c then some ([], xs) else none
]

unfoldable pub has : ℕ → List ℕ → Bool
has c [] = false
has c (x ∷ xs) = x == c || has c xs

pub record Prefix : Type 0 where
  pub addr : ℕ
  pub bits : ℕ

abbrev pub block : Prefix → ℕ
block p = 2 ^ (32 - p.bits)

abbrev pub masked : Prefix → Prefix
masked p = record p { addr = p.addr / block p * block p }

abbrev pub contains : Prefix → ℕ → Bool
contains p a = a / block p == p.addr / block p

abbrev pub plain_bits : List ℕ → Bool
plain_bits [] = true
plain_bits (c ∷ []) = true
plain_bits (c ∷ d ∷ cs) = leb b'1' c && leb c b'9'

abbrev pub with_bits : ℕ → Option ℤ → Option Prefix
with_bits a (some (pos n)) = if leb n 32 then some (record { addr = a; bits = n }) else none
with_bits a other = none

abbrev pub with_addr : List ℕ → Option ℕ → Option Prefix
with_addr bits none = none
with_addr bits (some a) = if plain_bits bits then with_bits a (atoi bits) else none

-- netip.ParsePrefix followed by the test that the address is IPv4.
unfoldable pub parse_prefix : List ℕ → Option Prefix
unfolding split_last parse_ip4 atoi
parse_prefix s = elim (split_last b'/' s) [ none ↦ none | some (a, b) ↦ with_addr b (parse_ip4 a) ]

-- net.SplitHostPort behind the last colon: an IPv6 host stands in brackets.
abbrev pub bracketed : List ℕ → List ℕ → Option (List ℕ × List ℕ)
bracketed front port = elim (split_first b']' front) [
  | none ↦ none
  | some (host, []) ↦
      if has b'[' host || has b']' host || has b'[' port || has b']' port
      then none
      else some (host, port)
  | some (host, x ∷ xs) ↦ none
]

abbrev pub plain_host : List ℕ → List ℕ → Option (List ℕ × List ℕ)
plain_host host port =
    if has b':' host || has b'[' host || has b']' host || has b'[' port || has b']' port
    then none
    else some (host, port)

abbrev pub host_part : List ℕ → List ℕ → Option (List ℕ × List ℕ)
host_part [] port = plain_host [] port
host_part (c ∷ cs) port =
    let inside = bracketed cs port in
    let whole = plain_host (c ∷ cs) port in if c == b'[' then inside else whole

unfoldable pub split_host_port : List ℕ → Option (List ℕ × List ℕ)
unfolding split_last split_first has
split_host_port s = elim (split_last b':' s) [
  | none ↦ none
  | some (front, port) ↦ host_part front port
]

abbrev pub is_space : ℕ → Bool
is_space c = c == 32 || (leb 9 c && leb c 13)

unfoldable pub trim_left : List ℕ → List ℕ
trim_left [] = []
trim_left (c ∷ cs) = let rest = trim_left cs in if is_space c then rest else c ∷ cs

-- strings.TrimSpace on ASCII text.
unfoldable pub trim_space : List ℕ → List ℕ
unfolding trim_left
trim_space s = reverse (trim_left (reverse (trim_left s)))

abbrev pub cons_head : ℕ → List (List ℕ) → List (List ℕ)
cons_head x [] = (x ∷ []) ∷ []
cons_head x (w ∷ ws) = (x ∷ w) ∷ ws

-- strings.Split with a separator of one byte.
unfoldable pub split : ℕ → List ℕ → List (List ℕ)
split c [] = [] ∷ []
split c (x ∷ xs) = let rest = split c xs in if x == c then [] ∷ rest else cons_head x rest

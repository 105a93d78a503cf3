-- ===== src/Gateway/Server.antt =====
-- internal/gateway/server.go and the request handlers of udp_stream.go and datagram.go.
-- A handler is a function from the request and from what the outside answers to the list of what it
-- does, in order. JSON is what `Request` and `Reply` stand for: a request that does not decode is
-- `none`. Deadlines, logging and the capture wrapper are left out.
pub mod Permission
pub mod Slots
use quic_lab.Common.{
  ℕ, ◌-◌, ◌/◌, ◌^◌, String, Bool, true, false, not, ◌&&◌, ◌||◌, Option, none, some, List, [], ◌∷◌,
  ◌++◌, ◌==◌, if◌then◌else◌,
}
use quic_lab.Net.Prefixes.{any_contains}
use quic_lab.Net.{
  ℤ, in_range, atoi, parse_ip4, Prefix, masked, parse_prefix, split_host_port, trim_space, split,
}

pub data Network : Type 0 where
  udp_stream_v1 udp_datagram_v1 transit_probe echo exit_ip tcp dns : Network
  unknown : String → Network

pub record Request : Type 0 where
  pub network : Network
  pub address : List ℕ

pub record Reply : Type 0 where
  pub udp_stream : Bool
  pub failure : String  -- the field Error
  pub session : String

pub data StreamKind : Type 0 where
  qstream mstream : StreamKind

-- What the handler did.
pub data Action : Type 0 where
  replies : Reply → Action
  probes : Action
  resolves : Action
  dials : String → List ℕ → Action
  registers : Action
  relays : Action  -- TCP bytes both ways, or datagrams both ways
  answers_queries : Action
  echoes : Action

-- What the code outside answers: the probe, the resolver's addresses, the dial, the registration
-- of a UDP flow, and whether the first reply could be written.
pub record Outside : Type 0 where
  pub has_probe : Bool
  pub probe_ok : Bool
  pub resolved : Option (List (List ℕ))
  pub dial_ok : Bool
  pub register_error : Option String
  pub reply_written : Bool

abbrev pub map_prefixes : List (List ℕ) → Option (List Prefix)
map_prefixes [] = some []
map_prefixes (v ∷ vs) = elim (parse_prefix (trim_space v)) [
  | none ↦ none
  | some p ↦ elim (map_prefixes vs) [ none ↦ none | some ps ↦ some (masked p ∷ ps) ]
]

-- New: the allowed prefixes of the server, or an error on a part that is no IPv4 prefix.
unfoldable pub new : List ℕ → Option (List Prefix)
unfolding parse_prefix trim_space split
new allow = map_prefixes (split b',' allow)

-- 0.0.0.0, 224.0.0.0/4 and 255.255.255.255.
abbrev pub is_special : ℕ → Bool
is_special a = a == 0 || a / 2 ^ 28 == 14 || a == 2 ^ 32 - 1

abbrev pub permitted_ip : List Prefix → Option ℕ → Bool
permitted_ip allowed none = false
permitted_ip allowed (some a) = if is_special a then false else any_contains allowed a

abbrev pub permitted_port : List Prefix → List ℕ → Option ℤ → Bool
permitted_port allowed host none = false
permitted_port allowed host (some n) =
    if in_range 1 65535 n then permitted_ip allowed (parse_ip4 host) else false

abbrev pub permitted_parts : List Prefix → Option (List ℕ × List ℕ) → Bool
permitted_parts allowed none = false
permitted_parts allowed (some (host, port)) = permitted_port allowed host (atoi port)

-- Server.Permitted.
unfoldable pub permitted : List Prefix → List ℕ → Bool
unfolding any_contains parse_ip4 atoi split_host_port
permitted allowed address = permitted_parts allowed (split_host_port address)

abbrev pub refusal : String → Reply
refusal e = record { udp_stream = false; failure = e; session = "" }

abbrev pub refuse : String → List Action
refuse e = replies (refusal e) ∷ []

abbrev pub opened : String → Reply
opened id = record { udp_stream = false; failure = ""; session = id }

-- serveUDPStream.
unfoldable pub serve_udp_stream : List Prefix → Outside → StreamKind → List ℕ → String → List Action
serve_udp_stream allowed out qstream address id = refuse "UDP stream requires HTTPS transport"
serve_udp_stream allowed out mstream address id =
    if not (permitted allowed address)
    then refuse "destination denied"
    else dials "udp4" address
      ∷ (if not out.dial_ok
          then refuse "destination unavailable"
          else replies (opened id) ∷ (if out.reply_written then relays ∷ [] else []))

-- serveUDP; `mux` is whether the connection carries datagrams.
unfoldable pub serve_udp : List Prefix → Outside → StreamKind → Bool → List ℕ → String → List Action
serve_udp allowed out mstream mux address id = refuse "QUIC DATAGRAM unavailable"
serve_udp allowed out qstream mux address id =
    if not mux
    then refuse "QUIC DATAGRAM unavailable"
    else (if not (permitted allowed address)
        then refuse "destination denied"
        else dials "udp4" address
          ∷ (if not out.dial_ok
              then refuse "destination unavailable"
              else registers ∷ elim out.register_error [
                | some e ↦ refuse e
                | none ↦ replies (opened id) ∷ (if out.reply_written then relays ∷ [] else [])
              ]))

abbrev pub port_is_53 : Option (List ℕ × List ℕ) → Bool
port_is_53 (some (host, c ∷ d ∷ [])) = c == b'5' && d == b'3'
port_is_53 other = false

-- The end of handleDatagrams, for "tcp" and "dns".
unfoldable pub serve_dial : List Prefix → Outside → Bool → List ℕ → String → List Action
unfolding permitted
serve_dial allowed out is_dns address id =
    if not (permitted allowed address)
    then refuse "destination denied"
    else (if is_dns && not (port_is_53 (split_host_port address))
        then refuse "DNS port must be 53"
        else dials (if is_dns then "udp4" else "tcp4") address
          ∷ (if not out.dial_ok
              then refuse "destination unavailable"
              else replies (opened id)
                ∷ (if out.reply_written
                    then (if is_dns then answers_queries else relays) ∷ []
                    else [])))

-- net.JoinHostPort(address, "443") for an IPv4 address.
abbrev pub with_https_port : List ℕ → List ℕ
with_https_port host = host ++ (b':' ∷ b'4' ∷ b'4' ∷ b'3' ∷ [])

unfoldable pub serve_exit_ip : List Prefix → Outside → Option (List (List ℕ)) → String → List Action
unfolding serve_dial
serve_exit_ip allowed out none id = refuse "exit IP lookup unavailable"
serve_exit_ip allowed out (some []) id = refuse "exit IP lookup unavailable"
serve_exit_ip allowed out (some (a ∷ rest)) id = serve_dial allowed out false (with_https_port a) id

unfoldable pub serve_probe : Outside → String → List Action
serve_probe out id =
    if not out.has_probe
    then refuse "transit disabled"
    else probes
      ∷ (if out.probe_ok then replies (opened id) ∷ [] else refuse "transit gateway unavailable")

abbrev pub is_mstream : StreamKind → Bool
is_mstream mstream = true
is_mstream qstream = false

unfoldable pub serve_echo : Outside → StreamKind → String → List Action
serve_echo out kind id =
    replies (record { udp_stream = is_mstream kind; failure = ""; session = id })
    ∷ (if out.reply_written then echoes ∷ [] else [])

unfoldable pub serve_network :
    List Prefix → Outside → StreamKind → Bool → String → Network → List ℕ → List Action
unfolding serve_udp_stream serve_udp serve_dial serve_exit_ip serve_probe serve_echo
serve_network allowed out kind mux id udp_stream_v1 address =
    serve_udp_stream allowed out kind address id
serve_network allowed out kind mux id udp_datagram_v1 address =
    serve_udp allowed out kind mux address id
serve_network allowed out kind mux id transit_probe address = serve_probe out id
serve_network allowed out kind mux id echo address = serve_echo out kind id
serve_network allowed out kind mux id exit_ip address =
    resolves ∷ serve_exit_ip allowed out out.resolved id
serve_network allowed out kind mux id tcp address = serve_dial allowed out false address id
serve_network allowed out kind mux id dns address = serve_dial allowed out true address id
serve_network allowed out kind mux id (unknown n) address = refuse "unsupported network"

-- handleDatagrams; a request that cannot be read gets no reply.
unfoldable pub handle_datagrams :
    List Prefix → Outside → StreamKind → Bool → String → Option Request → List Action
unfolding serve_network
handle_datagrams allowed out kind mux id none = []
handle_datagrams allowed out kind mux id (some r) =
    serve_network allowed out kind mux id r.network r.address

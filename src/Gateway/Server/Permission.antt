-- ===== src/Gateway/Server/Permission.antt =====
-- Where the gateway lets its users connect (internal/gateway/server.go).
use quic_lab.Common.{
  ℕ, ◌-◌, ◌/◌, ◌^◌, ◌≤◌, String, ◌≡◌, refl, ◌≢◌, ◌↔◌, inl, inr, Bool, true, false, not, ◌&&◌,
  Option, none, some, List, [], ◌∷◌, arith, if◌then◌else◌, Bool-cases, if_cases, All,
}
use quic_lab.Net.Prefixes.{any_contains, Within, any_contains→Within, Within→any_contains}
use quic_lab.Net.{ℤ, in_range, atoi, parse_ip4, Prefix, split_host_port, pos, negsuc}
use quic_lab.Gateway.Server.{
  Network, Request, StreamKind, Action, Outside, is_special, permitted_ip, permitted_port,
  permitted_parts, permitted, refuse, opened, serve_udp_stream, serve_udp, port_is_53, serve_dial,
  with_https_port, serve_exit_ip, serve_probe, serve_echo, serve_network, handle_datagrams,
  udp_stream_v1, udp_datagram_v1, transit_probe, echo, exit_ip, tcp, dns, unknown, qstream, mstream,
  replies, dials, relays, answers_queries,
}

-- A dial goes to a permitted address.
abbrev pub IsPermittedDial : List Prefix → Action → Type 0
IsPermittedDial allowed (dials n a) = permitted allowed a ≡ true
IsPermittedDial allowed other = Unit {0}

not-false : (b : Bool) → not b ≡ false → b ≡ true
not-false true h = refl
not-false false h = cc

module _ (allowed : List Prefix) (out : Outside) (address : List ℕ) (id : String) where
  udp_stream_permitted :
      (kind : StreamKind)
      → All (IsPermittedDial allowed) (serve_udp_stream allowed out kind address id)
  unfolding serve_udp_stream
  udp_stream_permitted qstream = (tt, tt)
  udp_stream_permitted mstream =
      if_cases (All (IsPermittedDial allowed)) (not (permitted allowed address)) _ _ (λ _. (tt, tt))
        λ yes_dial. (
          not-false _ yes_dial,
          if_cases (All (IsPermittedDial allowed)) (not out.dial_ok) _ _ (λ _. (tt, tt))
              (λ _. (
                tt,
                if_cases (All (IsPermittedDial allowed)) out.reply_written _ _ (λ _. (tt, tt))
                    (λ _. tt),
              )),
        )

  udp_permitted :
      (kind : StreamKind) (mux : Bool)
      → All (IsPermittedDial allowed) (serve_udp allowed out kind mux address id)
  unfolding serve_udp
  udp_permitted mstream mux = (tt, tt)
  udp_permitted qstream mux =
      if_cases (All (IsPermittedDial allowed)) (not mux) _ _ (λ _. (tt, tt))
        λ _.
          if_cases (All (IsPermittedDial allowed)) (not (permitted allowed address)) _ _
            (λ _. (tt, tt))
            λ yes_dial. (
              not-false _ yes_dial,
              if_cases (All (IsPermittedDial allowed)) (not out.dial_ok) _ _ (λ _. (tt, tt))
                  (λ _. (tt, registered out.register_error)),
            )
    where
      registered :
          (e : Option String)
          → All (IsPermittedDial allowed) (elim e [
            | some e ↦ refuse e
            | none ↦ replies (opened id) ∷ (if out.reply_written then relays ∷ [] else [])
          ])
      registered (some e) = (tt, tt)
      registered none = (
        tt,
        if_cases (All (IsPermittedDial allowed)) out.reply_written _ _ (λ _. (tt, tt)) (λ _. tt),
      )

dial_permitted :
    (allowed : List Prefix) (out : Outside) (is_dns : Bool) (address : List ℕ) (id : String)
    → All (IsPermittedDial allowed) (serve_dial allowed out is_dns address id)
unfolding serve_dial
dial_permitted allowed out is_dns address id =
    if_cases (All (IsPermittedDial allowed)) (not (permitted allowed address)) _ _ (λ _. (tt, tt))
      λ yes_dial.
        if_cases (All (IsPermittedDial allowed))
          (is_dns && not (port_is_53 (split_host_port address))) _ _ (λ _. (tt, tt))
          λ _. (
            not-false _ yes_dial,
            if_cases (All (IsPermittedDial allowed)) (not out.dial_ok) _ _ (λ _. (tt, tt))
                (λ _. (
                  tt,
                  if_cases (All (IsPermittedDial allowed)) out.reply_written _ _
                      (λ _. (last is_dns, tt)) (λ _. tt),
                )),
          )
  where
    last : (b : Bool) → IsPermittedDial allowed (if b then answers_queries else relays)
    last true = tt
    last false = tt

exit_ip_permitted :
    (allowed : List Prefix) (out : Outside) (found : Option (List (List ℕ))) (id : String)
    → All (IsPermittedDial allowed) (serve_exit_ip allowed out found id)
unfolding serve_exit_ip
exit_ip_permitted allowed out none id = (tt, tt)
exit_ip_permitted allowed out (some []) id = (tt, tt)
exit_ip_permitted allowed out (some (a ∷ rest)) id =
    dial_permitted allowed out false (with_https_port a) id

-- Whatever a client requests, of whatever network and over either transport, and whatever the
-- resolver, the probe and the dial answer, the handler connects only to addresses that `Permitted`
-- allows: also where the address came from the resolver.
pub handle_datagrams_permitted :
    (allowed : List Prefix) (out : Outside) (kind : StreamKind) (mux : Bool) (id : String)
    (r : Option Request)
    → All (IsPermittedDial allowed) (handle_datagrams allowed out kind mux id r)
unfolding handle_datagrams
handle_datagrams_permitted allowed out kind mux id none = tt
handle_datagrams_permitted allowed out kind mux id (some r) = by_network r.network
  where
    by_network :
        (n : Network)
        → All (IsPermittedDial allowed) (serve_network allowed out kind mux id n r.address)
    by_network udp_stream_v1 = udp_stream_permitted allowed out r.address id kind
    by_network udp_datagram_v1 = udp_permitted allowed out r.address id kind mux
    by_network transit_probe =
        unfold serve_probe in
        (if_cases (All (IsPermittedDial allowed)) (not out.has_probe) _ _ (λ _. (tt, tt))
          λ _. (
            tt,
            if_cases (All (IsPermittedDial allowed)) out.probe_ok _ _ (λ _. (tt, tt))
                (λ _. (tt, tt)),
          ))
    by_network echo =
        unfold serve_echo in
        (
          tt,
          if_cases (All (IsPermittedDial allowed)) out.reply_written _ _ (λ _. (tt, tt)) (λ _. tt),
        )
    by_network exit_ip = (tt, exit_ip_permitted allowed out out.resolved id)
    by_network tcp = dial_permitted allowed out false r.address id
    by_network dns = dial_permitted allowed out true r.address id
    by_network (unknown n) = (tt, tt)

-- An IPv4 unicast address in one of the prefixes, with a port, as `host:port`.
pub record IsPermitted (allowed : List Prefix) (address : List ℕ) : Type 0 where
  pub host : List ℕ
  pub port : List ℕ
  pub ip : ℕ
  pub number : ℕ
  pub parts : split_host_port address ≡ some (host, port)
  pub host_read : parse_ip4 host ≡ some ip
  pub port_read : atoi port ≡ some (pos number)
  pub port_low : 1 ≤ number
  pub port_high : number ≤ 65535
  pub specified : ip ≢ 0
  pub unicast : ip / 2 ^ 28 ≢ 14
  pub no_broadcast : ip ≢ 2 ^ 32 - 1
  pub within : Within allowed ip

IsPermitted-sound :
    (allowed : List Prefix) (address host port : List ℕ) (ip : ℕ) (z : ℤ)
    → split_host_port address ≡ some (host, port)
    → parse_ip4 host ≡ some ip
    → atoi port ≡ some z
    → in_range 1 65535 z ≡ true
    → is_special ip ≡ false
    → any_contains allowed ip ≡ true
    → IsPermitted allowed address
IsPermitted-sound allowed address host port ip (negsuc n) e1 e2 e3 r s w = cc
IsPermitted-sound allowed address host port ip (pos n) e1 e2 e3 r s w = record {
  host = host;
  port = port;
  ip = ip;
  number = n;
  parts = e1;
  host_read = e2;
  port_read = e3;
  port_low = ground arith;
  port_high = ground arith;
  specified = ground arith;
  unicast = ground arith;
  no_broadcast = ground arith;
  within = any_contains→Within allowed ip w;
}

permitted→IsPermitted :
    (allowed : List Prefix) (address : List ℕ)
    → permitted allowed address ≡ true
    → IsPermitted allowed address
unfolding permitted
permitted→IsPermitted allowed address h = by_parts (split_host_port address) refl h
  where
    by_ip :
        (host port : List ℕ) (z : ℤ) (o : Option ℕ)
        → split_host_port address ≡ some (host, port)
        → atoi port ≡ some z
        → in_range 1 65535 z ≡ true
        → parse_ip4 host ≡ o
        → permitted_ip allowed o ≡ true
        → IsPermitted allowed address
    by_ip host port z none e1 e3 r e2 h = cc
    by_ip host port z (some ip) e1 e3 r e2 h =
        IsPermitted-sound allowed address host port ip z e1 e2 e3 r (ground arith) (ground arith)

    by_port :
        (host port : List ℕ) (o : Option ℤ)
        → split_host_port address ≡ some (host, port)
        → atoi port ≡ o
        → permitted_port allowed host o ≡ true
        → IsPermitted allowed address
    by_port host port none e1 e3 h = cc
    by_port host port (some z) e1 e3 h = elim (Bool-cases (in_range 1 65535 z)) [
      | inl r ↦ by_ip host port z (parse_ip4 host) e1 e3 r refl (rw r at h)
      | inr r ↦ absurd (cc (rw r at h))
    ]

    by_parts :
        (o : Option (List ℕ × List ℕ))
        → split_host_port address ≡ o
        → permitted_parts allowed o ≡ true
        → IsPermitted allowed address
    by_parts none e h = cc
    by_parts (some (host, port)) e h = by_port host port (atoi port) e refl h

IsPermitted→permitted :
    (allowed : List Prefix) (address : List ℕ)
    → IsPermitted allowed address
    → permitted allowed address ≡ true
IsPermitted→permitted allowed address v =
    unfold permitted in
    rw (v.parts, v.port_read, v.host_read, in_port, plain)
      (Within→any_contains allowed v.ip v.within)
  where
    in_port : in_range 1 65535 (pos v.number) ≡ true
    in_port = ground arith

    plain : is_special v.ip ≡ false
    plain = ground arith

-- `Permitted` says yes to exactly the texts `host:port` whose host is an IPv4 address in one of the
-- allowed prefixes, neither 0.0.0.0 nor multicast nor 255.255.255.255, and whose port is 1 to 65535.
pub permitted_lem :
    (allowed : List Prefix) (address : List ℕ)
    → (permitted allowed address ≡ true) ↔ IsPermitted allowed address
permitted_lem allowed address =
    (permitted→IsPermitted allowed address, IsPermitted→permitted allowed address)

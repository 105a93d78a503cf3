-- ===== src/DebugCapture/Users.antt =====
-- internal/debugcapture/user.go: the captures of users: StartUser with captureAWG, StopUser, Mode
-- and Wrap. `To4` of a parsed address is its number or none; an IPv4-mapped literal is not read.
pub mod Filter
pub mod Parts
pub mod Single
pub mod Stepping
pub mod SingleReach
use quic_lab.Common.{
  ℕ, ◌+◌, ◌*◌, ◌/◌, ◌%◌, ◌^◌, Bool, true, false, not, ◌&&◌, ◌||◌, Option, none, some, List, [], ◌∷◌,
  ltb, leb, ◌==◌, if◌then◌else◌, is_some, length, take, drop, GoError, Result, foreign, message,
  err, ok,
}
use quic_lab.Common.Bytes.{be_at, le_at, same}
use quic_lab.Common.Maps.{lookup, insert}
use quic_lab.Net.{ℤ, atoi, parse_ip4, split_host_port, pos}
use quic_lab.DebugCapture.{section_blocks, read_pcap}
use quic_lab.DebugCapture.Session.{is_running, Session, emit, stop, same_text, user_capture}
use quic_lab.DebugCapture.Manager.{max_sessions, Manager, is_kept, Launch, new_session, emit_all}
use quic_lab.DebugCapture.Flows.{packet_at, CapturedConn}

-- Where the IPv4 packet starts in a frame of the link type.
abbrev pub link_offset : ℕ → Option ℕ
link_offset link =
    if link == 1
    then some 14
    else if link == 113
    then some 16
    else if link == 276
    then some 20
    else if link == 101 || link == 228
    then some 0
    else none

abbrev pub has_address : ℕ → List ℕ → Bool
has_address ip p = be_at 4 12 p == ip || be_at 4 16 p == ip

-- The packet of the account in a frame; none when there is none of his.
abbrev pub own_packet : ℕ → ℕ → List ℕ → Option (List ℕ)
own_packet ip offset frame =
    if ltb (length frame) (offset + 20)
    then none
    else if not (be_at 1 0 (drop offset frame) / 16 == 4)
    then none
    else if not (has_address ip (drop offset frame))
    then none
    else some (drop offset frame)

abbrev pub put_own : ℕ → List ℕ → ℕ → Option (List ℕ) → Session → Session
put_own now comment micros none s = s
put_own now comment micros (some p) s = packet_at now p comment micros s

abbrev pub filter_frame :
    ℕ → ℕ → List ℕ → ℕ → Option ℕ → List ℕ → ℕ × Session → Option GoError × (ℕ × Session)
filter_frame now ip comment micros none frame (link, s) =
    (some (message "unsupported AWG link"), (link, s))
filter_frame now ip comment micros (some offset) frame (link, s) =
    (none, (link, put_own now comment micros (own_packet ip offset frame) s))

-- What captureAWG does with each block of tcpdump's stream; the state is the link type and the
-- session.
unfoldable pub filter_block : ℕ → ℕ → List ℕ → List ℕ → ℕ × Session → Option GoError × (ℕ × Session)
unfolding be_at le_at packet_at
filter_block now ip comment b (link, s) =
    let size = le_at 4 20 b in
    if le_at 4 0 b == 168627466
    then (none, (le_at 2 36 b, s))
    else if ltb (length b) (28 + size + 4)
    then (some (message "short packet"), (link, s))
    else filter_frame now ip comment (le_at 4 12 b * 2 ^ 32 + le_at 4 16 b) (link_offset link)
        (take size (drop 28 b)) (link, s)

-- The reader of captureAWG, on all that tcpdump writes.
unfoldable pub read_awg : ℕ → ℕ → List ℕ → List ℕ → Session → GoError × (ℕ × Session)
unfolding filter_block read_pcap
read_awg now ip comment bytes s =
    read_pcap (record { emit = filter_block now ip comment }) bytes (0, s)

-- The end of the reader's goroutine: readPCAP always ends with an error.
unfoldable pub awg_ended : Session → Session
unfolding stop
awg_ended s = if s.cancelled then s else stop "AWG capture ended" s

abbrev pub is_name_byte : ℕ → Bool
is_name_byte c =
    (leb 97 c && leb c 122)
    || (leb 65 c && leb c 90)
    || (leb 48 c && leb c 57)
    || c == 95
    || c == 46
    || c == 58
    || c == 45

abbrev pub all_name_bytes : List ℕ → Bool
all_name_bytes [] = true
all_name_bytes (c ∷ cs) = is_name_byte c && all_name_bytes cs

-- ^[a-zA-Z0-9_.:-]{1,64}$
unfoldable pub is_interface_name : List ℕ → Bool
is_interface_name name = leb 1 (length name) && leb (length name) 64 && all_name_bytes name

-- The loop of StartUser: whether the user's capture runs, how many run, and the sessions that the
-- loop has left. It stops at the user's running capture.
unfoldable pub scan_sessions : ℕ → ℕ → List (ℕ × Session) → (Bool × ℕ) × List (ℕ × Session)
scan_sessions now user [] = ((false, 0), [])
scan_sessions now user ((id, s) ∷ m) =
    let ((found, active), left) = scan_sessions now user m in
    if not (is_kept now s)
    then ((found, active), left)
    else if is_running s.state && same_text s.user (some user)
    then ((true, 0), (id, s) ∷ m)
    else ((found, (if is_running s.state then 1 else 0) + active), (id, s) ∷ left)

abbrev pub user_session : Launch → ℕ → ℕ → Session
user_session out owner user = record (new_session out owner user_capture (0, 0)) {
  user = some user;
}

-- What StartUser stores; with an AWG interface, captureAWG has to succeed.
unfoldable pub started_session : Launch → ℕ → ℕ → Bool → Session
unfolding emit_all section_blocks emit stop
started_session out owner user with_awg =
    let ready = (emit out.now (section_blocks 101) (user_session out owner user)).1 in
    let running_on = emit_all out.now out.early ready in
    if with_awg && (not out.started || not out.is_ready)
    then stop "AWG capture failed" running_on
    else running_on

abbrev pub launch_user :
    Launch → ℕ → ℕ → Bool → (Bool × ℕ) × List (ℕ × Session) → Manager → Result ℕ × Manager
launch_user out owner user with_awg ((found, active), left) m =
    if found
    then (err (message "captured already"), record m { sessions = left })
    else if m.closing || leb m.slots active || leb max_sessions (length left)
    then (err (message "no free capture slot"), record m { sessions = left })
    else (
      if with_awg && (not out.started || not out.is_ready) then err foreign else ok out.id,
      record m { sessions = insert out.id (started_session out owner user with_awg) left },
    )

-- StartUser; `iface` is empty where no AWG interface is captured.
unfoldable pub start_user : Launch → ℕ → Option ℕ → List ℕ → Option ℕ → Manager → Result ℕ × Manager
unfolding scan_sessions started_session insert is_interface_name
start_user out owner none iface ip m = (err (message "user required"), m)
start_user out owner (some user) iface ip m =
    if leb 1 (length iface) && (not (is_interface_name iface) || not (is_some ip))
    then (err (message "invalid AWG capture interface/address"), m)
    else launch_user out owner user (leb 1 (length iface)) (scan_sessions out.now user m.sessions) m

unfoldable pub stop_user : ℕ → List (ℕ × Session) → List (ℕ × Session)
unfolding stop
stop_user user [] = []
stop_user user ((id, s) ∷ m) =
    (id, if same_text s.user (some user) then stop "user revoked" s else s) ∷ stop_user user m

pub data CaptureMode : Type 0 where
  inner transport : CaptureMode

abbrev pub mode_of : Option Session → CaptureMode
mode_of none = transport
mode_of (some s) = if is_some s.user then inner else transport

-- Mode.
unfoldable pub mode : ℕ → Manager → CaptureMode
unfolding lookup
mode id m = mode_of (lookup id m.sessions)

-- Wrap: none where the connection is handed back as it is. The counter is a uint32.
abbrev pub wrapped : ℕ → Bool → List ℕ → ℕ → Option ℕ → Option ℤ → Option CapturedConn × ℕ
wrapped user udp comment counter (some ip) (some (pos port)) =
    let id = (counter + 1) % 2 ^ 32 in
    if ltb port 1 || ltb 65535 port then (none, counter) else (
      some (record {
        flow = record {
          udp = udp;
          src = 3323068416 + id / 65536 % 256 * 256 + id / 256 % 256;
          dst = ip;
          sport = 1024 + id % 64000;
          dport = port;
        };
        user = user;
        comment = comment;
        states = [];
      }),
      id,
    )
wrapped user udp comment counter ip port = (none, counter)

abbrev pub wrap_parts : ℕ → Bool → List ℕ → ℕ → Option (List ℕ × List ℕ) → Option CapturedConn × ℕ
wrap_parts user udp comment counter none = (none, counter)
wrap_parts user udp comment counter (some (host, port)) =
    wrapped user udp comment counter (parse_ip4 host) (atoi port)

unfoldable pub wrap : Option ℕ → List ℕ → List ℕ → List ℕ → ℕ → Option CapturedConn × ℕ
unfolding split_host_port parse_ip4 atoi same
wrap none network address comment counter = (none, counter)
wrap (some user) network address comment counter =
    wrap_parts user (same (take 3 network) (117 ∷ 100 ∷ 112 ∷ [])) comment counter
      (split_host_port address)

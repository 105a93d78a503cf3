-- ===== src/DebugCapture/Manager.antt =====
-- internal/debugcapture/capture.go: the capture sessions of the server and who may use them.
-- The manager's mutex makes each call one step. Starting tcpdump, its first answer and the listener
-- of the factory are outside: a call is told how they end.
use quic_lab.Common.{
  ℕ, zero, suc, ◌+◌, ◌*◌, Bool, true, false, not, ◌&&◌, ◌||◌, Option, none, some, List, [], ◌∷◌,
  ltb, leb, ◌==◌, if◌then◌else◌, length, Result, foreign, message, err, ok,
}
use quic_lab.Common.Maps.{lookup, insert, keep}
use quic_lab.DebugCapture.Session.{
  lifetime, minute, is_running, Kind, Session, emit, stop, redeem_ticket, attach_token, log_out,
  running, echo_capture, vpn_capture, user_capture, other_kind,
}

abbrev pub retention : ℕ
retention = 5 * minute

abbrev pub max_sessions : ℕ
max_sessions = 8

pub record Manager : Type 0 where
  pub first_port : ℕ
  pub slots : ℕ
  pub echo_ports : ℕ × ℕ  -- Config.Ports["echo"]
  pub vpn_ports : ℕ × ℕ
  pub sessions : List (ℕ × Session)
  pub closing : Bool

abbrev pub is_kept : ℕ → Session → Bool
is_kept now s = leb now (s.until_time + retention)

-- Some running session has the port.
abbrev pub is_busy : ℕ → List (ℕ × Session) → Bool
is_busy port [] = false
is_busy port ((id, s) ∷ m) = (is_running s.state && s.port == port) || is_busy port m

-- The first port of the range that no running session has; 0 when all are busy.
unfoldable pub free_port : ℕ → ℕ → List (ℕ × Session) → ℕ
free_port zero port m = 0
free_port (suc left) port m =
    let later = free_port left (port + 1) m in if is_busy port m then later else port

abbrev pub count_running : List (ℕ × Session) → ℕ
count_running [] = 0
count_running ((id, s) ∷ m) = (if is_running s.state then 1 else 0) + count_running m

abbrev pub ports_of : Kind → Manager → ℕ × ℕ
ports_of echo_capture m = m.echo_ports
ports_of vpn_capture m = m.vpn_ports
ports_of user_capture m = (0, 0)
ports_of (other_kind k) m = (0, 0)

abbrev pub is_known : Kind → Bool
is_known echo_capture = true
is_known vpn_capture = true
is_known user_capture = false
is_known (other_kind k) = false

-- The UDP and the TCP port of a new session, or why there is none.
unfoldable pub choose_ports : Kind → Manager → Result (ℕ × ℕ)
unfolding free_port
choose_ports kind m =
    if m.first_port == 0
    then (if leb m.slots (count_running m.sessions)
        then err (message "all capture slots are busy")
        else if (ports_of kind m).0 == 0 || (ports_of kind m).1 == 0
        then err (message "all debug listeners are busy")
        else ok (ports_of kind m))
    else (let port = free_port m.slots m.first_port m.sessions in
        if port == 0 then err (message "all debug listeners are busy") else ok (port, port))

-- How the parts outside end: the filter and tcpdump's start, its first answer, the factory; and the
-- random texts.
pub record Launch : Type 0 where
  pub now : ℕ
  pub id : ℕ
  pub upload_token : ℕ
  pub started : Bool
  pub is_ready : Bool
  pub listens : Bool
  pub early : List (List ℕ)  -- the blocks that came before the session was stored

abbrev pub new_session : Launch → ℕ → Kind → ℕ × ℕ → Session
new_session out owner kind (udp, tcp) = record {
  id = out.id;
  owner = owner;
  kind = kind;
  user = none;
  state = running;
  port = udp;
  tcp_port = tcp;
  bytes = 0;
  until_time = out.now + lifetime;
  cancelled = false;
  awake = false;
  blocks = [];
  times = [];
  key_lines = [];
  upload_token = out.upload_token;
  ticket = none;
  token = none;
  ticket_until = 0;
  enrollment = none;
  enrollment_until = 0;
  connected = false;
}

-- What the reader of tcpdump emits before the manager is done.
unfoldable pub emit_all : ℕ → List (List ℕ) → Session → Session
unfolding emit
emit_all now [] s = s
emit_all now (b ∷ bs) s = emit_all now bs (emit now b s).1

abbrev pub launch : Launch → ℕ → Kind → Result (ℕ × ℕ) → Manager → Result ℕ × Manager
launch out owner kind (err e) m = (err e, m)
launch out owner kind (ok ports) m =
    if not out.started || not out.is_ready || not out.listens then (err foreign, m) else (
      ok out.id,
      record m {
        sessions =
            insert out.id (emit_all out.now out.early (new_session out owner kind ports))
              m.sessions;
      },
    )

abbrev pub start_kept : Launch → ℕ → Kind → Manager → Result ℕ × Manager
start_kept out owner kind m =
    if leb max_sessions (length m.sessions)
    then (err (message "capture retention limit; wait for expiry"), m)
    else launch out owner kind (choose_ports kind m) m

-- Manager.Start; `for_user` is whether a user's name was given.
unfoldable pub start : Launch → ℕ → Kind → Bool → Manager → Result ℕ × Manager
unfolding keep emit_all insert choose_ports
start out owner kind for_user m =
    if m.closing
    then (err (message "server stopping"), m)
    else if for_user
    then (err (message "use dedicated per-user capture"), m)
    else if not (is_known kind)
    then (err (message "unknown capture mode"), m)
    else start_kept out owner kind (record m { sessions = keep (is_kept out.now) m.sessions })

-- Manager.Get: only the owner's own session, and not behind the time it is kept.
abbrev pub own_session : ℕ → ℕ → Option Session → Option Session
own_session now owner none = none
own_session now owner (some s) =
    if not (s.owner == owner) || not (is_kept now s) then none else some s

unfoldable pub get : ℕ → ℕ → ℕ → Manager → Option Session
unfolding lookup
get now id owner m = own_session now owner (lookup id m.sessions)

unfoldable pub list_sessions : ℕ → ℕ → List (ℕ × Session) → List Session
list_sessions now owner [] = []
list_sessions now owner ((id, s) ∷ m) =
    let others = list_sessions now owner m in
    if s.owner == owner && ltb now (s.until_time + retention) then s ∷ others else others

unfoldable pub stop_owner : ℕ → List (ℕ × Session) → List (ℕ × Session)
unfolding log_out
stop_owner owner [] = []
stop_owner owner ((id, s) ∷ m) =
    (id, if s.owner == owner then log_out s else s) ∷ stop_owner owner m

abbrev pub put_result {ℓ} : {A : Type ℓ} → ℕ → Manager → A × Session → A × Manager
put_result id m (r, s) = (r, record m { sessions = insert id s m.sessions })

abbrev pub redeem_found : ℕ → ℕ → Option ℕ → ℕ → Option Session → Manager → Result ℕ × Manager
redeem_found now id ticket fresh none m = (err (message "unknown capture"), m)
redeem_found now id ticket fresh (some s) m = put_result id m (redeem_ticket now ticket fresh s)

unfoldable pub redeem : ℕ → ℕ → Option ℕ → ℕ → Manager → Result ℕ × Manager
unfolding lookup insert redeem_ticket
redeem now id ticket fresh m = redeem_found now id ticket fresh (lookup id m.sessions) m

abbrev pub attach_found : ℕ → Option ℕ → Option Session → Manager → Bool × Manager
attach_found id token none m = (false, m)
attach_found id token (some s) m = put_result id m (attach_token token s)

unfoldable pub attach : ℕ → Option ℕ → Manager → Bool × Manager
unfolding lookup insert attach_token
attach id token m = attach_found id token (lookup id m.sessions) m

-- The end of New: every session is stopped when the server stops.
abbrev pub stop_all : List (ℕ × Session) → List (ℕ × Session)
stop_all [] = []
stop_all ((id, s) ∷ m) = (id, stop "server stopped" s) ∷ stop_all m

unfoldable pub close_manager : Manager → Manager
unfolding stop
close_manager m = record m { closing = true; sessions = stop_all m.sessions }

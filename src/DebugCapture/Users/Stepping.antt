-- ===== src/DebugCapture/Users/Stepping.antt =====
-- internal/debugcapture/user.go: StartUser and the recorded flows keep the limits of the manager.
use quic_lab.Common.{
  ℕ, ◌/◌, ◌%◌, ◌^◌, ◌<◌, String, ◌≡◌, refl, inl, Bool, false, not, ◌&&◌, ◌||◌, Option, none, some,
  List, [], ◌∷◌, arith, ltb, leb, ◌==◌, is_some, if_cases, length, Result,
}
use quic_lab.Common.Maps.{lookup, insert, insert-AllValues}
use quic_lab.DebugCapture.{block, section_blocks}
use quic_lab.DebugCapture.Session.{Session, emit, stop}
use quic_lab.DebugCapture.Manager.{max_sessions, Manager, Launch, emit_all}
use quic_lab.DebugCapture.Bounds.{IsSession, emits, stops}
use quic_lab.DebugCapture.Listeners.{handed_out, IsManager, Follows, Follows-refl}
use quic_lab.DebugCapture.Retention.{
  SessionStep-Follows, count_running-insert, length-insert_le, insert-HaveOwnPorts, Follows-trans,
}
use quic_lab.DebugCapture.Packets.{Flow, FlowState, flow_packet}
use quic_lab.DebugCapture.Flows.{
  comment_body, packet_at, CapturedConn, put_packet, emit_segment, record_data, user_capture_of,
  record_found, record_in, record_flow,
}
use quic_lab.DebugCapture.Flows.Replay.{replay, record_data-replay}
use quic_lab.DebugCapture.Flows.Conversation.{Segment, log}
use quic_lab.DebugCapture.Users.{
  is_interface_name, scan_sessions, user_session, started_session, launch_user, start_user,
}
use quic_lab.DebugCapture.Users.Single.{Inherits, Inherits-refl, Inherits-trans}
use quic_lab.DebugCapture.Users.Parts.{Part-IsManager, IsScanned, scan_sessions-ScanGives}

-- Both relations that a change of one session may have to keep.
abbrev pub Becomes : Session → Session → Type 0
Becomes s t = Follows s t × Inherits s t

Becomes-refl : (s : Session) → Becomes s s
Becomes-refl s = (Follows-refl s, Inherits-refl s)

Becomes-trans : (s t u : Session) → Becomes s t → Becomes t u → Becomes s u
Becomes-trans s t u a b = (Follows-trans s t u a.0 b.0, Inherits-trans s t u a.1 b.1)

emit-Becomes : (now : ℕ) (b : List ℕ) (s : Session) → Becomes s (emit now b s).1
unfolding Inherits emit
emit-Becomes now b s =
    (SessionStep-Follows {k = handed_out s} (emits now b), ((λ h. ground arith), ground arith))

stop-Becomes : (reason : String) (s : Session) → Becomes s (stop reason s)
unfolding Inherits stop
stop-Becomes reason s =
    (SessionStep-Follows {k = handed_out s} (stops reason), ((λ h. ground arith), refl))

packet_at-Becomes :
    (now : ℕ) (p comment : List ℕ) (micros : ℕ) (s : Session)
    → Becomes s (packet_at now p comment micros s)
unfolding packet_at
packet_at-Becomes now p comment micros s =
    if_cases (Becomes s) (length p == 0 || ltb 65535 (length p)) _ _ (λ e. Becomes-refl s)
      (λ e. emit-Becomes now (block 6 (comment_body p comment (micros % 2 ^ 64))) s)

put_packet-Becomes :
    (now : ℕ) (comment : List ℕ) (o : Option (List ℕ)) (s : Session)
    → Becomes s (put_packet now comment o s)
put_packet-Becomes now comment none s = Becomes-refl s
put_packet-Becomes now comment (some p) s = packet_at-Becomes now p comment (now / 1000) s

emit_segment-Becomes :
    (now : ℕ) (c : Flow) (comment : List ℕ) (st : FlowState) (up : Bool) (p : List ℕ) (flags : ℕ)
    (s : Session)
    → Becomes s (emit_segment now c comment st up p flags s)
unfolding emit_segment
emit_segment-Becomes now c comment st up p flags s =
    put_packet-Becomes now comment (flow_packet c st up p flags) s

replay-Becomes :
    (now : ℕ) (c : Flow) (comment : List ℕ) (l : List Segment) (s : Session)
    → Becomes s (replay (emit_segment now c comment) l s)
unfolding replay
replay-Becomes now c comment [] s = Becomes-refl s
replay-Becomes now c comment (g ∷ l) s =
    let next = emit_segment now c comment g.state g.is_up g.payload g.flags s in
    Becomes-trans s next (replay (emit_segment now c comment) l next)
      (emit_segment-Becomes now c comment g.state g.is_up g.payload g.flags s)
      (replay-Becomes now c comment l next)

record_data-Becomes :
    (now : ℕ) (c : Flow) (comment : List ℕ) (up : Bool) (p : List ℕ) (found : Option FlowState)
    (s : Session)
    → Becomes s (record_data (emit_segment now c comment) c.udp up p found s).1
record_data-Becomes now c comment up p found s =
    rw (record_data-replay (emit_segment now c comment) c.udp up p found s)
      (replay-Becomes now c comment (record_data log c.udp up p found []).1 s)

-- What record makes of the manager: the same table, or one session of it replaced.
pub data Records (m : Manager) : Manager → Type 0 where
  no_capture : Records m m
  into_capture :
      (id : ℕ) (s t : Session)
      → lookup id m.sessions ≡ some s
      → Becomes s t
      → Records m (record m { sessions = insert id t m.sessions })

found-Records :
    (now : ℕ) (up : Bool) (p : List ℕ) (c : CapturedConn) (id : ℕ) (o : Option Session)
    (m : Manager)
    → lookup id m.sessions ≡ o
    → Records m (record_found now up p c id o m).1
found-Records now up p c id none m e = no_capture
found-Records now up p c id (some s) m e =
    into_capture id s
      (record_data (emit_segment now c.flow c.comment) c.flow.udp up p (lookup id c.states) s).1 e
      (record_data-Becomes now c.flow c.comment up p (lookup id c.states) s)

in-Records :
    (now : ℕ) (up : Bool) (p : List ℕ) (c : CapturedConn) (o : Option ℕ) (m : Manager)
    → Records m (record_in now up p c o m).1
in-Records now up p c none m = no_capture
in-Records now up p c (some id) m = found-Records now up p c id (lookup id m.sessions) m refl

pub record_flow-Records :
    (now : ℕ) (up : Bool) (p : List ℕ) (c : CapturedConn) (m : Manager)
    → Records m (record_flow now up p c m).1
unfolding record_flow
record_flow-Records now up p c m = in-Records now up p c (user_capture_of c.user m.sessions) m

emit_all-Becomes : (now : ℕ) (bs : List (List ℕ)) (s : Session) → Becomes s (emit_all now bs s)
unfolding emit_all
emit_all-Becomes now [] s = Becomes-refl s
emit_all-Becomes now (b ∷ bs) s =
    Becomes-trans s (emit now b s).1 (emit_all now bs (emit now b s).1) (emit-Becomes now b s)
      (emit_all-Becomes now bs (emit now b s).1)

-- The session that StartUser stores comes from a fresh one of the user, without a port.
pub started_session-Becomes :
    (out : Launch) (owner user : ℕ) (with_awg : Bool)
    → Becomes (user_session out owner user) (started_session out owner user with_awg)
unfolding started_session
started_session-Becomes out owner user with_awg =
    if_cases (Becomes fresh) (with_awg && (not out.started || not out.is_ready)) _ _
      (λ e.
        Becomes-trans fresh running_on (stop "AWG capture failed" running_on) early
          (stop-Becomes "AWG capture failed" running_on))
      (λ e. early)
  where
    fresh : Session
    fresh = user_session out owner user

    ready : Session
    ready = (emit out.now (section_blocks 101) fresh).1

    running_on : Session
    running_on = emit_all out.now out.early ready

    early : Becomes fresh running_on
    early =
        Becomes-trans fresh ready running_on (emit-Becomes out.now (section_blocks 101) fresh)
          (emit_all-Becomes out.now out.early ready)

pub started_session-good :
    (out : Launch) (owner user : ℕ) (with_awg : Bool)
    → IsSession (started_session out owner user with_awg)
      × ((started_session out owner user with_awg).port ≡ 0)
      × ((started_session out owner user with_awg).user ≡ some user)
unfolding Follows Inherits
started_session-good out owner user with_awg =
    let ((good, runs, same_port), (runs', same_user)) =
      started_session-Becomes out owner user with_awg in
    (good (refl, refl, omega arith, omega arith, inl refl), same_port, same_user)

launch_user-IsManager :
    (out : Launch) (owner user : ℕ) (with_awg found : Bool) (active : ℕ) (left : List (ℕ × Session))
    (m : Manager)
    → IsScanned user ((found, active), left)
    → IsManager (record m { sessions = left })
    → IsManager (launch_user out owner user with_awg ((found, active), left) m).1
launch_user-IsManager out owner user with_awg found active left m scanned (few, good, slots, own) =
    if_cases P found _ _ (λ e. (few, good, slots, own))
      (λ e.
        if_cases P (m.closing || leb m.slots active || leb max_sessions (length left)) _ _
          (λ f. (few, good, slots, own))
          (λ f.
            let (free, count) = scanned e in
            (
              omega (arith, length-insert_le out.id new left, room f),
              insert-AllValues IsSession out.id new left new_good.0 good,
              λ h. omega (arith, count_running-insert out.id new left, slot f, count),
              λ ne. insert-HaveOwnPorts out.id new left (λ bad. absurd (bad new_good.1)) (own ne),
            )))
  where
    P : Result ℕ × Manager → Type 0
    P r = IsManager r.1

    new : Session
    new = started_session out owner user with_awg

    new_good : IsSession new × (new.port ≡ 0) × (new.user ≡ some user)
    new_good = started_session-good out owner user with_awg

    room :
        (m.closing || leb m.slots active || leb max_sessions (length left)) ≡ false
        → length left < max_sessions
    room f = ground arith

    slot :
        (m.closing || leb m.slots active || leb max_sessions (length left)) ≡ false
        → active < m.slots
    slot f = ground arith

pub start_user-IsManager :
    (out : Launch) (owner : ℕ) (user : Option ℕ) (iface : List ℕ) (ip : Option ℕ) (m : Manager)
    → IsManager m
    → IsManager (start_user out owner user iface ip m).1
unfolding start_user
start_user-IsManager out owner none iface ip m good = good
start_user-IsManager out owner (some user) iface ip m good =
    let (part, scanned) = scan_sessions-ScanGives out.now user m.sessions in
    if_cases (λ (r : Result ℕ × Manager). IsManager r.1)
      (leb 1 (length iface) && (not (is_interface_name iface) || not (is_some ip))) _ _ (λ e. good)
      (λ e.
        launch_user-IsManager out owner user (leb 1 (length iface))
          (scan_sessions out.now user m.sessions).0.0 (scan_sessions out.now user m.sessions).0.1
          (scan_sessions out.now user m.sessions).1 m scanned
          (Part-IsManager m (scan_sessions out.now user m.sessions).1 part good))

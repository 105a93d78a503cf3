-- ===== src/DebugCapture/Starting.antt =====
-- internal/debugcapture/capture.go: the bounds of the manager hold over any sequence of calls.
use mathlib.Core.Path.{subst}
use quic_lab.Common.{
  ℕ, ◌<◌, ◌≡◌, sym, ◌≢◌, inl, inr, Bool, true, false, not, ◌||◌, arith, leb, ◌==◌, ==_iff,
  Bool-cases, if_cases, length, Result, err, ok,
}
use quic_lab.Common.Maps.{
  insert, keep, length-delete, length-keep, insert-AllValues, delete-AllValues, keep-AllValues,
}
use quic_lab.DebugCapture.Session.{Kind, Session}
use quic_lab.DebugCapture.Manager.{
  max_sessions, Manager, is_kept, is_busy, free_port, count_running, ports_of, is_known,
  choose_ports, Launch, new_session, emit_all, launch, start, stop_owner, stop_all, close_manager,
}
use quic_lab.DebugCapture.Bounds.{IsSession}
use quic_lab.DebugCapture.Listeners.{
  ManagerStep, ManagerReach, IsManager, Follows, insert-AllFollow, stop_all-AllFollow,
  stop_owner-AllFollow, stop_user-AllFollow, starts, starts_user, records, stops_user, touches,
  forgets, logs_out_owner, closes, at_start, and_step,
}
use quic_lab.DebugCapture.Users.{stop_user}
use quic_lab.DebugCapture.Users.Stepping.{
  Records, record_flow-Records, start_user-IsManager, no_capture, into_capture,
}
use quic_lab.DebugCapture.Retention.{
  SessionStep-Follows, AllFollow-IsManager, count_running-delete, count_running-keep,
  count_running-insert, length-insert_le, free_port-free, delete-HaveOwnPorts, keep-HaveOwnPorts,
  insert-HaveOwnPorts, emit_all-Follows, new_session-IsSession,
}

-- The session that a start stores.
abbrev stored : Launch → ℕ → Kind → ℕ × ℕ → Session
stored out owner kind ports = emit_all out.now out.early (new_session out owner kind ports)

stored-good :
    (out : Launch) (owner : ℕ) (kind : Kind) (ports : ℕ × ℕ)
    → IsSession (stored out owner kind ports) × ((stored out owner kind ports).port ≡ ports.0)
unfolding Follows
stored-good out owner kind (udp, tcp) =
    let (good, runs, same_port) =
      emit_all-Follows out.now out.early (new_session out owner kind (udp, tcp)) in
    (good (new_session-IsSession out owner kind (udp, tcp)), same_port)

-- What choose_ports promises of its answer.
abbrev Chosen : Manager → Result (ℕ × ℕ) → Type 0
Chosen m (err e) = Unit {0}
Chosen m (ok ports) =
    ((m.first_port ≡ 0) → count_running m.sessions < m.slots)
    × ((m.first_port ≢ 0) → is_busy ports.0 m.sessions ≡ false)

choose_ports-Chosen : (kind : Kind) (m : Manager) → Chosen m (choose_ports kind m)
unfolding choose_ports
choose_ports-Chosen kind m = elim (Bool-cases (m.first_port == 0)) [
  | inl e ↦ rw e (
      if_cases (Chosen m) (leb m.slots (count_running m.sessions)) _ _ (λ f. tt)
        (λ f.
          if_cases (Chosen m) ((ports_of kind m).0 == 0 || (ports_of kind m).1 == 0) _ _ (λ g. tt)
            (λ g. ((λ h. ground arith), λ ne. absurd (ne ((==_iff m.first_port 0).0 e))))))
  | inr e ↦
      let free = free_port-free m.slots m.first_port m.sessions in
      rw e (
        if_cases (Chosen m) (free_port m.slots m.first_port m.sessions == 0) _ _ (λ g. tt)
          (λ g. (
            (λ h. absurd (ground arith)),
            λ ne. elim free [ inl zero_port ↦ absurd (ground arith) | inr not_busy ↦ not_busy ],
          )))
]

launch-IsManager :
    (out : Launch) (owner : ℕ) (kind : Kind) (r : Result (ℕ × ℕ)) (m : Manager)
    → length m.sessions < max_sessions
    → Chosen m r
    → IsManager m
    → IsManager (launch out owner kind r m).1
launch-IsManager out owner kind (err e) m room chosen good = good
launch-IsManager out owner kind (ok ports) m room (slot, listener) (few, good, slots, own) =
    if_cases (λ (r : Result ℕ × Manager). IsManager r.1)
      (not out.started || not out.is_ready || not out.listens) _ _ (λ e. (few, good, slots, own))
      (λ e.
        let (new_good, new_port) = stored-good out owner kind ports in
        let new = stored out owner kind ports in
        (
          omega (arith, length-insert_le out.id new m.sessions, room),
          insert-AllValues IsSession out.id new m.sessions new_good good,
          λ h. omega (arith, count_running-insert out.id new m.sessions, slot h),
          λ ne.
              insert-HaveOwnPorts out.id new m.sessions
                (λ port_ne. subst (λ p. is_busy p m.sessions ≡ false) (sym new_port) (listener ne))
                (own ne),
        ))

kept-IsManager :
    (now : ℕ) (m : Manager)
    → IsManager m
    → IsManager (record m { sessions = keep (is_kept now) m.sessions })
kept-IsManager now m (few, good, slots, own) = (
  omega (arith, length-keep (is_kept now) m.sessions, few),
  keep-AllValues IsSession (is_kept now) m.sessions good,
  λ h. omega (arith, count_running-keep (is_kept now) m.sessions, slots h),
  λ ne. keep-HaveOwnPorts (is_kept now) m.sessions (own ne),
)

start-IsManager :
    (out : Launch) (owner : ℕ) (kind : Kind) (for_user : Bool) (m : Manager)
    → IsManager m
    → IsManager (start out owner kind for_user m).1
unfolding start
start-IsManager out owner kind for_user m good =
    if_cases P m.closing _ _ (λ e. good)
      (λ e.
        if_cases P for_user _ _ (λ e. good)
          (λ e.
            if_cases P (not (is_known kind)) _ _ (λ e. good)
              (λ e.
                if_cases P (leb max_sessions (length kept.sessions)) _ _
                  (λ e. kept-IsManager out.now m good)
                  (λ e.
                    launch-IsManager out owner kind (choose_ports kind kept) kept (ground arith)
                      (choose_ports-Chosen kind kept) (kept-IsManager out.now m good)))))
  where
    P : Result ℕ × Manager → Type 0
    P r = IsManager r.1

    kept : Manager
    kept = record m { sessions = keep (is_kept out.now) m.sessions }

Records-IsManager : {m n : Manager} → Records m n → IsManager m → IsManager n
Records-IsManager no_capture good = good
Records-IsManager {m} (into_capture id s t found becomes) good =
    AllFollow-IsManager m (insert id t m.sessions) m.closing
      (insert-AllFollow id s t m.sessions found becomes.0) good

ManagerStep-IsManager : {m n : Manager} → ManagerStep m n → IsManager m → IsManager n
unfolding close_manager
ManagerStep-IsManager {m} (starts out owner kind for_user) good =
    start-IsManager out owner kind for_user m good
ManagerStep-IsManager {m} (starts_user out owner user iface ip) good =
    start_user-IsManager out owner user iface ip m good
ManagerStep-IsManager {m} (records now up p c) good =
    Records-IsManager (record_flow-Records now up p c m) good
ManagerStep-IsManager {m} (stops_user user) good =
    AllFollow-IsManager m (stop_user user m.sessions) m.closing
      (stop_user-AllFollow user m.sessions) good
ManagerStep-IsManager {m} (touches id s t k found step) good =
    AllFollow-IsManager m (insert id t m.sessions) m.closing
      (insert-AllFollow id s t m.sessions found (SessionStep-Follows step)) good
ManagerStep-IsManager {m} (forgets id) (few, good, slots, own) = (
  omega (arith, length-delete id m.sessions, few),
  delete-AllValues IsSession id m.sessions good,
  λ h. omega (arith, count_running-delete id m.sessions, slots h),
  λ ne. delete-HaveOwnPorts id m.sessions (own ne),
)
ManagerStep-IsManager {m} (logs_out_owner owner) good =
    AllFollow-IsManager m (stop_owner owner m.sessions) m.closing
      (stop_owner-AllFollow owner m.sessions) good
ManagerStep-IsManager {m} closes good =
    AllFollow-IsManager m (stop_all m.sessions) true (stop_all-AllFollow m.sessions) good

-- Take a manager with at most 8 sessions, each within its limits, with no more running ones than
-- slots if it captures the ordinary listeners, and with no port other than 0 shared by two running
-- ones if it has debug listeners of its own. All of this holds after any sequence of starts of
-- ordinary captures and of captures of users, recorded reads and writes, steps of its sessions,
-- log-outs, revoked users, ends of retention and the end of the server.
pub ManagerReach-IsManager : {m n : Manager} → IsManager m → ManagerReach m n → IsManager n
ManagerReach-IsManager good at_start = good
ManagerReach-IsManager good (and_step r step) =
    ManagerStep-IsManager step (ManagerReach-IsManager good r)

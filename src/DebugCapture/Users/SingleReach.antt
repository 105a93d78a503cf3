-- ===== src/DebugCapture/Users/SingleReach.antt =====
-- internal/debugcapture/user.go: no two running captures of one user, whatever the manager is asked.
use quic_lab.Common.{
  ℕ, ◌≡◌, refl, ◌∙◌, Bool, false, not, ◌&&◌, ◌||◌, Option, none, some, List, [], ◌∷◌, arith, leb,
  is_some, if_cases, length, Result, err, ok,
}
use quic_lab.Common.Maps.{keep}
use quic_lab.DebugCapture.Session.{
  Kind, Session, emit, write_keys, stop, make_ticket, redeem_ticket, attach_token, make_enrollment,
  enroll_token, log_out,
}
use quic_lab.DebugCapture.Manager.{
  max_sessions, Manager, is_kept, is_known, choose_ports, Launch, new_session, emit_all, launch,
  start, close_manager,
}
use quic_lab.DebugCapture.Bounds.{
  SessionStep, emits, writes, stops, asks_ticket, redeems, attaches, asks_enrollment, enrolls,
  logs_out,
}
use quic_lab.DebugCapture.Listeners.{
  handed_out, ManagerStep, ManagerReach, Follows, starts, starts_user, records, stops_user, touches,
  forgets, logs_out_owner, closes, at_start, and_step,
}
use quic_lab.DebugCapture.Retention.{SessionStep-Follows}
use quic_lab.DebugCapture.Users.{
  is_interface_name, scan_sessions, started_session, launch_user, start_user,
}
use quic_lab.DebugCapture.Users.Single.{
  is_captured, IsSingle, Inherits, Thins-IsSingle, insert-Thins, delete-Thins, keep-Thins,
  stop_all-Thins, stop_owner-Thins, stop_user-Thins, insert-IsSingle,
}
use quic_lab.DebugCapture.Users.Parts.{Part-Thins, IsScanned, scan_sessions-ScanGives}
use quic_lab.DebugCapture.Users.Stepping.{
  Records, record_flow-Records, started_session-good, no_capture, into_capture,
}

SessionStep-user : {s t : Session} {n k : ℕ} → SessionStep s n t k → t.user ≡ s.user
unfolding emit write_keys stop make_ticket redeem_ticket attach_token make_enrollment enroll_token
    log_out
SessionStep-user (emits now b) = ground arith
SessionStep-user (writes now p) = ground arith
SessionStep-user (stops reason) = ground arith
SessionStep-user (asks_ticket now fresh) = ground arith
SessionStep-user (redeems now fresh ticket) = ground arith
SessionStep-user (attaches token) = ground arith
SessionStep-user (asks_enrollment now fresh) = ground arith
SessionStep-user (enrolls now token) = ground arith
SessionStep-user logs_out = ground arith

SessionStep-Inherits : {s t : Session} {k : ℕ} → SessionStep s (handed_out s) t k → Inherits s t
unfolding Inherits Follows
SessionStep-Inherits step = ((SessionStep-Follows step).1, SessionStep-user step)

-- An ordinary capture has no user.
emit_all-user : (now : ℕ) (bs : List (List ℕ)) (s : Session) → (emit_all now bs s).user ≡ s.user
unfolding emit_all
emit_all-user now [] s = refl
emit_all-user now (b ∷ bs) s =
    emit_all-user now bs (emit now b s).1 ∙ SessionStep-user {n = 0} {k = 0} (emits now b)

none-is_captured : (m : List (ℕ × Session)) → is_captured none m ≡ false
none-is_captured [] = refl
none-is_captured ((i, s) ∷ m) = ground (arith, none-is_captured m)

launch-IsSingle :
    (out : Launch) (owner : ℕ) (kind : Kind) (r : Result (ℕ × ℕ)) (m : Manager)
    → IsSingle m.sessions
    → IsSingle (launch out owner kind r m).1.sessions
launch-IsSingle out owner kind (err e) m h = h
launch-IsSingle out owner kind (ok (udp, tcp)) m h =
    let new = emit_all out.now out.early (new_session out owner kind (udp, tcp)) in
    if_cases (λ (r : Result ℕ × Manager). IsSingle r.1.sessions)
      (not out.started || not out.is_ready || not out.listens) _ _ (λ e. h)
      (λ e.
        insert-IsSingle out.id new m.sessions
          (rw (emit_all-user out.now out.early (new_session out owner kind (udp, tcp)))
            (none-is_captured m.sessions))
          h)

start-IsSingle :
    (out : Launch) (owner : ℕ) (kind : Kind) (for_user : Bool) (m : Manager)
    → IsSingle m.sessions
    → IsSingle (start out owner kind for_user m).1.sessions
unfolding start
start-IsSingle out owner kind for_user m h =
    if_cases P m.closing _ _ (λ e. h)
      (λ e.
        if_cases P for_user _ _ (λ e. h)
          (λ e.
            if_cases P (not (is_known kind)) _ _ (λ e. h)
              (λ e.
                if_cases P (leb max_sessions (length kept.sessions)) _ _ (λ e. kept_single)
                  (λ e. launch-IsSingle out owner kind (choose_ports kind kept) kept kept_single))))
  where
    P : Result ℕ × Manager → Type 0
    P r = IsSingle r.1.sessions

    kept : Manager
    kept = record m { sessions = keep (is_kept out.now) m.sessions }

    kept_single : IsSingle kept.sessions
    kept_single = Thins-IsSingle (keep-Thins (is_kept out.now) m.sessions) h

launch_user-IsSingle :
    (out : Launch) (owner user : ℕ) (with_awg found : Bool) (active : ℕ) (left : List (ℕ × Session))
    (m : Manager)
    → IsScanned user ((found, active), left)
    → IsSingle left
    → IsSingle (launch_user out owner user with_awg ((found, active), left) m).1.sessions
launch_user-IsSingle out owner user with_awg found active left m scanned h =
    let new = started_session out owner user with_awg in
    if_cases (λ (r : Result ℕ × Manager). IsSingle r.1.sessions) found _ _ (λ e. h)
      (λ e.
        if_cases (λ (r : Result ℕ × Manager). IsSingle r.1.sessions)
          (m.closing || leb m.slots active || leb max_sessions (length left)) _ _ (λ f. h)
          (λ f.
            insert-IsSingle out.id new left
              (rw (started_session-good out owner user with_awg).2 (scanned e).0) h))

start_user-IsSingle :
    (out : Launch) (owner : ℕ) (user : Option ℕ) (iface : List ℕ) (ip : Option ℕ) (m : Manager)
    → IsSingle m.sessions
    → IsSingle (start_user out owner user iface ip m).1.sessions
unfolding start_user
start_user-IsSingle out owner none iface ip m h = h
start_user-IsSingle out owner (some user) iface ip m h =
    let (part, scanned) = scan_sessions-ScanGives out.now user m.sessions in
    if_cases (λ (r : Result ℕ × Manager). IsSingle r.1.sessions)
      (leb 1 (length iface) && (not (is_interface_name iface) || not (is_some ip))) _ _ (λ e. h)
      (λ e.
        launch_user-IsSingle out owner user (leb 1 (length iface))
          (scan_sessions out.now user m.sessions).0.0 (scan_sessions out.now user m.sessions).0.1
          (scan_sessions out.now user m.sessions).1 m scanned (Thins-IsSingle (Part-Thins part) h))

Records-IsSingle : {m n : Manager} → Records m n → IsSingle m.sessions → IsSingle n.sessions
Records-IsSingle no_capture h = h
Records-IsSingle {m} (into_capture id s t found becomes) h =
    Thins-IsSingle (insert-Thins id s t m.sessions found becomes.1) h

ManagerStep-IsSingle : {m n : Manager} → ManagerStep m n → IsSingle m.sessions → IsSingle n.sessions
unfolding close_manager
ManagerStep-IsSingle {m} (starts out owner kind for_user) h =
    start-IsSingle out owner kind for_user m h
ManagerStep-IsSingle {m} (starts_user out owner user iface ip) h =
    start_user-IsSingle out owner user iface ip m h
ManagerStep-IsSingle {m} (records now up p c) h =
    Records-IsSingle (record_flow-Records now up p c m) h
ManagerStep-IsSingle {m} (stops_user user) h = Thins-IsSingle (stop_user-Thins user m.sessions) h
ManagerStep-IsSingle {m} (touches id s t k found step) h =
    Thins-IsSingle (insert-Thins id s t m.sessions found (SessionStep-Inherits step)) h
ManagerStep-IsSingle {m} (forgets id) h = Thins-IsSingle (delete-Thins id m.sessions) h
ManagerStep-IsSingle {m} (logs_out_owner owner) h =
    Thins-IsSingle (stop_owner-Thins owner m.sessions) h
ManagerStep-IsSingle {m} closes h = Thins-IsSingle (stop_all-Thins m.sessions) h

-- If no user has two running captures, then no user has after any sequence of starts, recorded reads
-- and writes, steps of the sessions, log-outs, revoked users, ends of retention and the end of the
-- server.
pub ManagerReach-IsSingle :
    {m n : Manager} → IsSingle m.sessions → ManagerReach m n → IsSingle n.sessions
ManagerReach-IsSingle h at_start = h
ManagerReach-IsSingle h (and_step r step) = ManagerStep-IsSingle step (ManagerReach-IsSingle h r)

-- ===== src/DebugCapture/Listeners.antt =====
-- internal/debugcapture/capture.go: the manager over any sequence of calls: how many sessions it
-- keeps, how many run, and that no two running ones share a debug listener.
use mathlib.Core.Path.{subst}
use quic_lab.Common.{
  ℕ, suc, ◌≤◌, String, ◌≡◌, refl, sym, ap, ◌≢◌, inl, inr, Bool, true, false, Option, some, List, [],
  ◌∷◌, arith, ◌==◌, if◌then◌else◌, ==_iff, Bool-cases, if_cases, length,
}
use quic_lab.Common.Maps.{lookup, insert, delete, AllValues}
use quic_lab.DebugCapture.Session.{is_running, Kind, Session, stop, same_text, log_out}
use quic_lab.DebugCapture.Manager.{
  max_sessions, Manager, is_busy, count_running, Launch, start, stop_owner, stop_all, close_manager,
}
use quic_lab.DebugCapture.Flows.{CapturedConn, record_flow}
use quic_lab.DebugCapture.Users.{start_user, stop_user}
use quic_lab.DebugCapture.Bounds.{IsSession, SessionStep}

abbrev pub handed_out : Session → ℕ
handed_out s = if s.connected then 1 else 0

-- The calls and events: Start, StartUser, a read or a write of a user's flow, a step of a stored
-- session, the end of its retention, a log-out, a revoked user and the end of the server.
pub data ManagerStep (m : Manager) : Manager → Type 0 where
  starts :
      (out : Launch) (owner : ℕ) (kind : Kind) (for_user : Bool)
      → ManagerStep m (start out owner kind for_user m).1
  starts_user :
      (out : Launch) (owner : ℕ) (user : Option ℕ) (iface : List ℕ) (ip : Option ℕ)
      → ManagerStep m (start_user out owner user iface ip m).1
  records :
      (now : ℕ) (up : Bool) (p : List ℕ) (c : CapturedConn)
      → ManagerStep m (record_flow now up p c m).1
  stops_user : (user : ℕ) → ManagerStep m (record m { sessions = stop_user user m.sessions })
  touches :
      (id : ℕ) (s t : Session) (k : ℕ)
      → lookup id m.sessions ≡ some s
      → SessionStep s (handed_out s) t k
      → ManagerStep m (record m { sessions = insert id t m.sessions })
  forgets : (id : ℕ) → ManagerStep m (record m { sessions = delete id m.sessions })
  logs_out_owner : (owner : ℕ) → ManagerStep m (record m { sessions = stop_owner owner m.sessions })
  closes : ManagerStep m (close_manager m)

pub data ManagerReach (m : Manager) : Manager → Type 0 where
  at_start : ManagerReach m m
  and_step : {n o : Manager} → ManagerReach m n → ManagerStep n o → ManagerReach m o

-- No two running sessions have the same port; the captures of users have none, which is 0.
abbrev pub HaveOwnPorts : List (ℕ × Session) → Type 0
HaveOwnPorts [] = Unit {0}
HaveOwnPorts ((id, s) ∷ m) =
    (is_running s.state ≡ true → s.port ≢ 0 → is_busy s.port m ≡ false) × HaveOwnPorts m

abbrev pub IsManager : Manager → Type 0
IsManager m =
    (length m.sessions ≤ max_sessions)
    × AllValues IsSession m.sessions
    × ((m.first_port ≡ 0) → count_running m.sessions ≤ m.slots)
    × ((m.first_port ≢ 0) → HaveOwnPorts m.sessions)

-- `t` can take the place of `s`: it runs only if `s` did, at the same port.
unfoldable pub Follows : Session → Session → Type 0
Follows s t =
    (IsSession s → IsSession t)
    × (is_running t.state ≡ true → is_running s.state ≡ true)
    × (t.port ≡ s.port)

abbrev pub AllFollow : List (ℕ × Session) → List (ℕ × Session) → Type 0
AllFollow [] [] = Unit {0}
AllFollow [] (f ∷ n) = ⊥
AllFollow (e ∷ m) [] = ⊥
AllFollow ((i, s) ∷ m) ((j, t) ∷ n) = (i ≡ j) × Follows s t × AllFollow m n

pub Follows-refl : (s : Session) → Follows s s
unfolding Follows
Follows-refl s = (λ h. h, λ h. h, refl)

pub AllFollow-refl : (m : List (ℕ × Session)) → AllFollow m m
AllFollow-refl [] = tt
AllFollow-refl ((i, s) ∷ m) = (refl, Follows-refl s, AllFollow-refl m)

pub insert-AllFollow :
    (id : ℕ) (s t : Session) (m : List (ℕ × Session))
    → lookup id m ≡ some s
    → Follows s t
    → AllFollow m (insert id t m)
unfolding lookup insert
insert-AllFollow id s t [] h f = cc
insert-AllFollow id s t ((j, r) ∷ m) h f = elim (Bool-cases (j == id)) [
  | inl e ↦
      let this : r ≡ s = (let found : some r ≡ some s = rw e at h in cc) in
      rw e
        ((==_iff j id).0 e, subst (λ x. Follows x t) {x = s} {y = r} (sym this) f, AllFollow-refl m)
  | inr e ↦ rw e (refl, Follows-refl r, insert-AllFollow id s t m (rw e at h) f)
]

stop-Follows : (reason : String) (s : Session) → Follows s (stop reason s)
unfolding Follows stop
stop-Follows reason s = (λ good. ground arith, λ h. ground arith, refl)

log_out-Follows : (s : Session) → Follows s (log_out s)
unfolding Follows log_out stop
log_out-Follows s = (λ good. ground arith, λ h. ground arith, refl)

pub stop_all-AllFollow : (m : List (ℕ × Session)) → AllFollow m (stop_all m)
unfolding close_manager
stop_all-AllFollow [] = tt
stop_all-AllFollow ((i, s) ∷ m) = (refl, stop-Follows "server stopped" s, stop_all-AllFollow m)

pub stop_owner-AllFollow : (owner : ℕ) (m : List (ℕ × Session)) → AllFollow m (stop_owner owner m)
unfolding stop_owner
stop_owner-AllFollow owner [] = tt
stop_owner-AllFollow owner ((i, s) ∷ m) = (
  refl,
  if_cases (Follows s) (s.owner == owner) (log_out s) s (λ e. log_out-Follows s)
      (λ e. Follows-refl s),
  stop_owner-AllFollow owner m,
)

pub stop_user-AllFollow : (user : ℕ) (m : List (ℕ × Session)) → AllFollow m (stop_user user m)
unfolding stop_user
stop_user-AllFollow user [] = tt
stop_user-AllFollow user ((i, s) ∷ m) = (
  refl,
  if_cases (Follows s) (same_text s.user (some user)) (stop "user revoked" s) s
      (λ e. stop-Follows "user revoked" s) (λ e. Follows-refl s),
  stop_user-AllFollow user m,
)

-- What the new sessions keep of the old ones.
pub AllFollow-kept :
    (m n : List (ℕ × Session))
    → AllFollow m n
    → (length n ≡ length m)
      × (AllValues IsSession m → AllValues IsSession n)
      × (count_running n ≤ count_running m)
unfolding Follows
AllFollow-kept [] [] f = (refl, λ h. h, omega arith)
AllFollow-kept [] (x ∷ n) f = absurd f
AllFollow-kept (x ∷ m) [] f = absurd f
AllFollow-kept ((i, s) ∷ m) ((j, t) ∷ n) (same_key, (good, runs, same_port), others) =
    let (size, all_good, fewer) = AllFollow-kept m n others in
    (ap suc size, λ h. (good h.0, all_good h.1), ground arith)

pub AllFollow-is_busy :
    (port : ℕ) (m n : List (ℕ × Session))
    → AllFollow m n
    → is_busy port m ≡ false
    → is_busy port n ≡ false
unfolding Follows
AllFollow-is_busy port [] [] f h = refl
AllFollow-is_busy port [] (x ∷ n) f h = absurd f
AllFollow-is_busy port (x ∷ m) [] f h = absurd f
AllFollow-is_busy port ((i, s) ∷ m) ((j, t) ∷ n) (same_key, (good, runs, same_port), others) h =
    ground (arith, AllFollow-is_busy port m n others)

pub AllFollow-HaveOwnPorts :
    (m n : List (ℕ × Session)) → AllFollow m n → HaveOwnPorts m → HaveOwnPorts n
unfolding Follows
AllFollow-HaveOwnPorts [] [] f h = tt
AllFollow-HaveOwnPorts [] (x ∷ n) f h = absurd f
AllFollow-HaveOwnPorts (x ∷ m) [] f h = absurd f
AllFollow-HaveOwnPorts ((i, s) ∷ m) ((j, t) ∷ n) (same_key, (good, runs, same_port), others)
      (own, rest) =
    (
      λ r ne.
          rw same_port (AllFollow-is_busy s.port m n others (own (runs r) (rw same_port at ne))),
      AllFollow-HaveOwnPorts m n others rest,
    )

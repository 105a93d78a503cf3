-- ===== src/DebugCapture/Users/Parts.antt =====
-- internal/debugcapture/user.go: what StartUser leaves of the table, and what it counts.
use quic_lab.Common.{
  ℕ, ◌≤◌, ◌≡◌, refl, Bool, true, false, not, ◌&&◌, some, List, [], ◌∷◌, arith, if_cases, length,
}
use quic_lab.Common.Maps.{AllValues}
use quic_lab.DebugCapture.Session.{is_running, Session, same_text}
use quic_lab.DebugCapture.Manager.{Manager, is_kept, is_busy, count_running}
use quic_lab.DebugCapture.Bounds.{IsSession}
use quic_lab.DebugCapture.Listeners.{HaveOwnPorts, IsManager}
use quic_lab.DebugCapture.Users.{scan_sessions}
use quic_lab.DebugCapture.Users.Single.{
  is_captured, Inherits-refl, Thins, nothing_left, drops, turns,
}

-- The second table holds some of the sessions of the first, in order.
pub data Part : List (ℕ × Session) → List (ℕ × Session) → Type 0 where
  all_gone : (m : List (ℕ × Session)) → Part m []
  without : (e : ℕ × Session) {m n : List (ℕ × Session)} → Part m n → Part (e ∷ m) n
  retaining : (e : ℕ × Session) {m n : List (ℕ × Session)} → Part m n → Part (e ∷ m) (e ∷ n)

pub Part-refl : (m : List (ℕ × Session)) → Part m m
Part-refl [] = all_gone []
Part-refl (e ∷ m) = retaining e (Part-refl m)

pub Part-Thins : {m n : List (ℕ × Session)} → Part m n → Thins m n
Part-Thins (all_gone m) = nothing_left m
Part-Thins (without e {m} {n} part) = drops e m n (Part-Thins part)
Part-Thins (retaining (i, s) {m} {n} part) = turns i i s s m n (Inherits-refl s) (Part-Thins part)

Part-length : {m n : List (ℕ × Session)} → Part m n → length n ≤ length m
Part-length (all_gone m) = omega arith
Part-length (without e part) = omega (arith, Part-length part)
Part-length (retaining e part) = omega (arith, Part-length part)

Part-AllValues :
    {m n : List (ℕ × Session)} → Part m n → AllValues IsSession m → AllValues IsSession n
Part-AllValues (all_gone m) h = tt
Part-AllValues (without e part) h = Part-AllValues part h.1
Part-AllValues (retaining e part) h = (h.0, Part-AllValues part h.1)

Part-count_running : {m n : List (ℕ × Session)} → Part m n → count_running n ≤ count_running m
Part-count_running (all_gone m) = omega arith
Part-count_running (without e part) = omega (arith, Part-count_running part)
Part-count_running (retaining e part) = omega (arith, Part-count_running part)

Part-is_busy :
    (port : ℕ) {m n : List (ℕ × Session)}
    → Part m n
    → is_busy port m ≡ false
    → is_busy port n ≡ false
Part-is_busy port (all_gone m) h = refl
Part-is_busy port (without e part) h = Part-is_busy port part (ground arith)
Part-is_busy port (retaining e part) h = ground (arith, Part-is_busy port part)

Part-HaveOwnPorts : {m n : List (ℕ × Session)} → Part m n → HaveOwnPorts m → HaveOwnPorts n
Part-HaveOwnPorts (all_gone m) h = tt
Part-HaveOwnPorts (without e part) h = Part-HaveOwnPorts part h.1
Part-HaveOwnPorts (retaining (i, s) part) h =
    ((λ r ne. Part-is_busy s.port part (h.0 r ne)), Part-HaveOwnPorts part h.1)

pub Part-IsManager :
    (m : Manager) (sessions : List (ℕ × Session))
    → Part m.sessions sessions
    → IsManager m
    → IsManager (record m { sessions = sessions })
Part-IsManager m sessions part (few, good, slots, own) = (
  omega (arith, Part-length part, few),
  Part-AllValues part good,
  λ h. omega (arith, Part-count_running part, slots h),
  λ ne. Part-HaveOwnPorts part (own ne),
)

-- What the loop of StartUser has found out when it ran to the end.
abbrev pub IsScanned : ℕ → (Bool × ℕ) × List (ℕ × Session) → Type 0
IsScanned user ((found, active), left) =
    found ≡ false → (is_captured (some user) left ≡ false) × (active ≡ count_running left)

abbrev ScanGives : ℕ → List (ℕ × Session) → (Bool × ℕ) × List (ℕ × Session) → Type 0
ScanGives user m r = Part m r.1 × IsScanned user r

pub scan_sessions-ScanGives :
    (now user : ℕ) (m : List (ℕ × Session))
    → Part m (scan_sessions now user m).1 × IsScanned user (scan_sessions now user m)
unfolding scan_sessions
scan_sessions-ScanGives now user [] = (all_gone [], λ e. (refl, refl))
scan_sessions-ScanGives now user ((id, s) ∷ m) =
    let (part, scanned) = scan_sessions-ScanGives now user m in
    if_cases (ScanGives user ((id, s) ∷ m)) (not (is_kept now s)) _ _
      (λ e. (without (id, s) part, scanned))
      (λ e.
        if_cases (ScanGives user ((id, s) ∷ m)) (is_running s.state && same_text s.user (some user))
          _ _ (λ f. (Part-refl ((id, s) ∷ m), λ bad. absurd (let no : true ≡ false = bad in cc)))
          (λ f. (retaining (id, s) part, λ g. let (free, count) = scanned g in ground arith)))

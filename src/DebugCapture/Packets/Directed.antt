-- ===== src/DebugCapture/Packets/Directed.antt =====
-- internal/debugcapture/user.go: a receiver accepts what emit writes, in either direction.
use quic_lab.Common.{ℕ, Bool, true, false, Option, none, some, List, if◌then◌else◌}
use quic_lab.DebugCapture.Packets.{Flow}
use quic_lab.DebugCapture.Packets.Verified.{IsVerified}

-- The protocol number and the addresses of a packet of the flow in one direction.
abbrev pub IsDirected : Flow → Bool → List ℕ → Type 0
IsDirected c true p = IsVerified (if c.udp then 17 else 6) c.src c.dst p
IsDirected c false p = IsVerified (if c.udp then 17 else 6) c.dst c.src p

abbrev pub HoldsOf {ℓ} : {A : Type 0} → (A → Type ℓ) → Option A → Type ℓ
HoldsOf Holds none = Unit
HoldsOf Holds (some a) = Holds a

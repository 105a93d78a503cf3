-- ===== src/AwgServer/Worker/Activity.antt =====
-- internal/awgserver/worker.go: what Snapshot reports of an account.
use quic_lab.Common.{ℕ, ◌≤◌, ◌≡◌, Option, none, some, List, All}
use quic_lab.Common.Maps.{lookup}
use quic_lab.AwgServer.Worker.{PeerStatus}
use quic_lab.AwgServer.Worker.Snapshots.{Reading}

-- The account `i` was last active at `since`; `r` says nothing older of it.
abbrev pub NotOlder : ℕ → ℕ → PeerStatus → Type 0
NotOlder i since p = p.id ≡ some i → since ≤ p.activity

abbrev pub IsListed : List (ℕ × ℕ) → PeerStatus → Type 0
IsListed ids p = (key : ℕ) × (i : ℕ) × (lookup key ids ≡ some i) × (p.id ≡ some i)

-- The peer whose lines are read is unknown or that of an account.
abbrev CurrentIsListed : List (ℕ × ℕ) → Option PeerStatus → Type 0
CurrentIsListed ids none = Unit {0}
CurrentIsListed ids (some p) = (key : ℕ) × (lookup key ids ≡ p.id)

abbrev IsReading : List (ℕ × ℕ) → ℕ → ℕ → Reading → Type 0
IsReading ids i since r =
    CurrentIsListed ids r.current
    × All (IsListed ids) r.reported
    × All (NotOlder i since) r.reported
    × ((p : PeerStatus) × (lookup i r.table ≡ some p) × (since ≤ p.activity))

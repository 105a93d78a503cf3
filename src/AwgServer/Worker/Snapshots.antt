-- ===== src/AwgServer/Worker/Snapshots.antt =====
-- internal/awgserver/worker.go: Snapshot, which reads the state of the device back, and
-- confirmedActivity. A line of the device's text is read as what it says.
use quic_lab.Common.{
  ℕ, ◌*◌, Bool, false, ◌&&◌, ◌||◌, Option, none, some, List, [], ◌∷◌, ◌++◌, ltb, ◌==◌,
  if◌then◌else◌, is_some,
}
use quic_lab.Common.Maps.{lookup, insert}
use quic_lab.AwgServer.{second}
use quic_lab.AwgServer.Worker.{WorkerPeer, WorkerUser, enabled_peer, PeerStatus}

pub data StatusLine : Type 0 where
  key_line : ℕ → StatusLine
  endpoint_line : List ℕ → StatusLine
  rx_line : ℕ → StatusLine
  tx_line : ℕ → StatusLine
  handshake_line : ℕ → StatusLine  -- seconds
  other_line : StatusLine

abbrev pub no_status : PeerStatus
no_status = record { id = none; source = []; handshake = 0; activity = 0; tx = 0; rx = 0 }

-- The accounts by the keys of their peers.
abbrev pub add_id : Option WorkerPeer → ℕ → List (ℕ × ℕ) → List (ℕ × ℕ)
add_id none id ids = ids
add_id (some p) id ids = elim p.public_key [ none ↦ ids | some key ↦ insert key id ids ]

unfoldable pub ids_of : ℕ → List (ℕ × WorkerUser) → List (ℕ × ℕ)
unfolding enabled_peer insert
ids_of now [] = []
ids_of now ((id, u) ∷ users) = add_id (enabled_peer now u) u.id (ids_of now users)

unfoldable pub confirmed_activity : PeerStatus → PeerStatus → ℕ → ℕ
confirmed_activity previous current now =
    if is_some previous.id && ltb previous.tx current.tx
    then now
    else if ltb previous.activity current.handshake
    then current.handshake
    else previous.activity

-- The variables of Snapshot: the peer whose lines are read, the worker's table, what is reported.
pub record Reading : Type 0 where
  pub current : Option PeerStatus
  pub table : List (ℕ × PeerStatus)
  pub reported : List PeerStatus

abbrev pub status_or_zero : Option PeerStatus → PeerStatus
status_or_zero none = no_status
status_or_zero (some p) = p

abbrev pub flush_known : ℕ → ℕ → PeerStatus → Reading → Reading
flush_known now id p r =
    let seen = record p {
      activity = confirmed_activity (status_or_zero (lookup id r.table)) p now;
    } in
    record r { table = insert id seen r.table; reported = r.reported ++ (seen ∷ []) }

abbrev pub flush_current : ℕ → Option PeerStatus → Reading → Reading
flush_current now none r = r
flush_current now (some p) r = elim p.id [ none ↦ r | some id ↦ flush_known now id p r ]

unfoldable pub flush : ℕ → Reading → Reading
unfolding lookup insert confirmed_activity
flush now r = flush_current now r.current r

abbrev pub change_current : (PeerStatus → PeerStatus) → Reading → Reading
change_current f r = elim r.current [ none ↦ r | some p ↦ record r { current = some (f p) } ]

unfoldable pub read_line : ℕ → List (ℕ × ℕ) → StatusLine → Reading → Reading
unfolding flush lookup
read_line now ids (key_line key) r = record (flush now r) {
  current = some (record no_status { id = lookup key ids });
}
read_line now ids (endpoint_line v) r = change_current (λ p. record p { source = v }) r
read_line now ids (rx_line n) r = change_current (λ p. record p { tx = n }) r
read_line now ids (tx_line n) r = change_current (λ p. record p { rx = n }) r
read_line now ids (handshake_line n) r =
    change_current (λ p. if n == 0 then p else record p { handshake = n * second }) r
read_line now ids other_line r = r

unfoldable pub read_lines : ℕ → List (ℕ × ℕ) → List StatusLine → Reading → Reading
unfolding read_line flush
read_lines now ids [] r = flush now r
read_lines now ids (l ∷ lines) r = read_lines now ids lines (read_line now ids l r)

abbrev pub is_reported : ℕ → List PeerStatus → Bool
is_reported id [] = false
is_reported id (p ∷ ps) = same_id p.id || is_reported id ps
  where
    same_id : Option ℕ → Bool
    same_id none = false
    same_id (some other) = other == id

-- The accounts that are not reported any more are forgotten.
unfoldable pub keep_reported : List PeerStatus → List (ℕ × PeerStatus) → List (ℕ × PeerStatus)
keep_reported reported [] = []
keep_reported reported ((id, p) ∷ table) =
    let rest = keep_reported reported table in
    if is_reported id reported then (id, p) ∷ rest else rest

-- Worker.Snapshot, on what the device answers: the peers that are reported and the worker's table.
unfoldable pub snapshot :
    ℕ
    → List (ℕ × WorkerUser)
    → List StatusLine
    → List (ℕ × PeerStatus)
    → List PeerStatus × List (ℕ × PeerStatus)
unfolding ids_of read_lines keep_reported
snapshot now users lines table =
    let r =
      read_lines now (ids_of now users) lines
        (record { current = none; table = table; reported = [] }) in
    (r.reported, keep_reported r.reported r.table)

-- ===== src/Gateway/Server/Slots.antt =====
-- The flow limits of `serve` (internal/gateway/server.go): a channel of 128 slots for each session,
-- and one of 1024 for the server. A channel used as a semaphore is the number of its tokens.
use quic_lab.Common.{
  ℕ, ◌+◌, ◌-◌, ◌≤◌, ◌<◌, ◌≡◌, Bool, true, false, Option, none, some, List, [], ◌∷◌, ltb,
  if◌then◌else◌,
}
use quic_lab.Common.Maps.{lookup, insert, AllValues}

pub record Slots : Type 0 where
  pub server : ℕ
  pub sessions : List (ℕ × ℕ)

-- `select { case c <- struct{}{}: … default: … }`
abbrev pub try_take : ℕ → ℕ → Option ℕ
try_take cap used = if ltb used cap then some (used + 1) else none

-- A stream arrives at a session: its slot, then the server's; without the second the first is given
-- back. The Boolean is whether a handler was started; if not, the stream is closed.
abbrev pub take_server : ℕ → ℕ → Slots → Option ℕ → Slots × Bool
take_server id used s none = (record s { sessions = insert id used s.sessions }, false)
take_server id used s (some n) =
    (record { server = n; sessions = insert id (used + 1) s.sessions }, true)

abbrev pub take_session : ℕ → ℕ → Slots → Option ℕ → Slots × Bool
take_session id used s none = (s, false)
take_session id used s (some n) = take_server id used s (try_take 1024 s.server)

unfoldable pub arrive : ℕ → ℕ → Slots → Slots × Bool
arrive id used s = take_session id used s (try_take 128 used)

-- The deferred `<-slots; <-s.slots` of a handler.
unfoldable pub finish : ℕ → ℕ → Slots → Slots
finish id used s = record { server = s.server - 1; sessions = insert id (used - 1) s.sessions }

pub data SlotStep (s : Slots) : Slots → Type 0 where
  opens :
      (id : ℕ)
      → lookup id s.sessions ≡ none
      → SlotStep s (record s { sessions = insert id 0 s.sessions })
  arrives : (id used : ℕ) → lookup id s.sessions ≡ some used → SlotStep s (arrive id used s).0
  finishes :
      (id used : ℕ) → lookup id s.sessions ≡ some used → 0 < used → SlotStep s (finish id used s)

pub data Reach (s : Slots) : Slots → Type 0 where
  start : Reach s s
  then_step : {t u : Slots} → Reach s t → SlotStep t u → Reach s u

abbrev pub total : List (ℕ × ℕ) → ℕ
total [] = 0
total ((id, n) ∷ m) = n + total m

pub record IsWithin (s : Slots) : Type 0 where
  pub server_bounded : s.server ≤ 1024
  pub sessions_bounded : AllValues (λ n. n ≤ 128) s.sessions
  pub balanced : s.server ≡ total s.sessions

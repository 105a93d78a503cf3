-- ===== src/DebugCapture/Session.antt =====
-- internal/debugcapture/capture.go: one capture session.
-- A random text (a ticket, a token) is the number that stands for it, and `none` is the empty text.
-- `cancelled` is whether the context was cancelled; `awake` is the one place of the channel `wake`.
use quic_lab.Common.{
  ℕ, zero, suc, ◌+◌, ◌-◌, ◌*◌, String, Bool, true, false, not, ◌&&◌, ◌||◌, Option, none, some, List,
  [], ◌∷◌, ◌++◌, ltb, ◌==◌, if◌then◌else◌, is_some, length, get_elem?, take, drop, GoError, Result,
  eof, message, err, ok,
}
use quic_lab.DebugCapture.{secrets}

abbrev pub max_bytes : ℕ
max_bytes = 33_554_432

abbrev pub max_key_bytes : ℕ
max_key_bytes = 1_048_576

abbrev pub lifetime : ℕ
lifetime = 600_000_000_000

abbrev pub minute : ℕ
minute = 60_000_000_000

pub data State : Type 0 where
  running : State
  ended : String → State

abbrev pub is_running : State → Bool
is_running running = true
is_running (ended reason) = false

pub data Kind : Type 0 where
  echo_capture vpn_capture user_capture : Kind
  other_kind : String → Kind

pub record Session : Type 0 where
  pub id : ℕ
  pub owner : ℕ
  pub kind : Kind
  pub user : Option ℕ
  pub state : State
  pub port : ℕ
  pub tcp_port : ℕ
  pub bytes : ℕ
  pub until_time : ℕ
  pub cancelled : Bool
  pub awake : Bool
  pub blocks : List (List ℕ)
  pub times : List ℕ
  pub key_lines : List ℕ
  pub upload_token : ℕ
  pub ticket : Option ℕ
  pub token : Option ℕ
  pub ticket_until : ℕ
  pub enrollment : Option ℕ
  pub enrollment_until : ℕ
  pub connected : Bool

-- Session.emit; a session that would get too large ends.
unfoldable pub emit : ℕ → List ℕ → Session → Option GoError × Session
emit now b s =
    if not (is_running s.state)
    then (some eof, s)
    else if ltb max_bytes (s.bytes + length b)
    then (
      some eof,
      record s { state = ended "capture limit (32 MiB)"; cancelled = true; awake = true },
    )
    else (
      none,
      record s {
        blocks = s.blocks ++ (b ∷ []);
        times = s.times ++ (now ∷ []);
        bytes = s.bytes + length b;
        awake = true;
      },
    )

-- Session.Write: TLS secrets become a block of their own. It reports every byte as written.
unfoldable pub write_keys : ℕ → List ℕ → Session → ℕ × Session
unfolding emit secrets
write_keys now p s =
    if not (is_running s.state) || ltb max_key_bytes (length s.key_lines + length p)
    then (length p, s)
    else (length p, (emit now (secrets p) (record s { key_lines = s.key_lines ++ p })).1)

unfoldable pub stop : String → Session → Session
stop reason s = record s {
  state = if is_running s.state then ended reason else s.state;
  cancelled = true;
  awake = true;
}

-- Session.Blocks: what was captured behind the first `from` blocks, and whether the session ended.
unfoldable pub blocks_from : ℕ → Session → List (List ℕ) × Bool
blocks_from from s = (drop from s.blocks, not (is_running s.state))

-- The loop of LiveBlocks: blocks younger than two seconds are held back while the session runs.
abbrev pub live_end : ℕ → ℕ → List ℕ → ℕ → ℕ
live_end now from times zero = zero
live_end now from times (suc n) =
    let earlier = live_end now from times n in
    if ltb from (suc n) && is_young now (get_elem? times n) then earlier else suc n
  where
    is_young : ℕ → Option ℕ → Bool
    is_young now none = false
    is_young now (some t) = ltb (now - t) 2_000_000_000

unfoldable pub live_blocks : ℕ → ℕ → Session → List (List ℕ) × Bool
live_blocks now from s =
    let count = length s.blocks in
    let last = if is_running s.state then live_end now from s.times count else count in
    (take (last - from) (drop from s.blocks), not (is_running s.state) && last == count)

-- Session.Ticket; `fresh` is the random text.
unfoldable pub make_ticket : ℕ → ℕ → Session → Result ℕ × Session
make_ticket now fresh s =
    if not (is_running s.state) || s.connected
    then (err (message "capture stopped or already attached"), s)
    else (ok fresh, record s { ticket = some fresh; ticket_until = now + minute })

abbrev pub same_text : Option ℕ → Option ℕ → Bool
same_text none none = true
same_text none (some b) = false
same_text (some a) none = false
same_text (some a) (some b) = a == b

-- The part of Redeem behind the search of the session.
unfoldable pub redeem_ticket : ℕ → Option ℕ → ℕ → Session → Result ℕ × Session
redeem_ticket now ticket fresh s =
    if not (is_some ticket)
      || not (same_text s.ticket ticket)
      || ltb s.ticket_until now
      || not (is_running s.state)
    then (err (message "expired launch ticket"), s)
    else (ok fresh, record s { ticket = none; token = some fresh })

-- The part of Attach behind the search of the session: whether the session was handed out.
unfoldable pub attach_token : Option ℕ → Session → Bool × Session
attach_token token s =
    if not (is_some token)
      || not (same_text s.token token)
      || s.connected
      || not (is_running s.state)
    then (false, s)
    else (true, record s { token = none; connected = true })

unfoldable pub make_enrollment : ℕ → ℕ → Session → Result ℕ × Session
make_enrollment now fresh s =
    if not (is_running s.state) || ltb s.until_time now
    then (err (message "capture stopped"), s)
    else (ok fresh, record s { enrollment = some fresh; enrollment_until = now + 2 * minute })

-- One round of the loop of Enroll on a text of the right form.
unfoldable pub enroll_token : ℕ → ℕ → Session → Bool × Session
enroll_token now token s =
    if same_text s.enrollment (some token)
      && is_running s.state
      && ltb now s.enrollment_until
      && ltb now s.until_time
    then (true, record s { enrollment = none })
    else (false, s)

-- The loss of both texts in StopOwner.
unfoldable pub log_out : Session → Session
unfolding stop
log_out s = record (stop "logged out" s) { ticket = none; token = none }

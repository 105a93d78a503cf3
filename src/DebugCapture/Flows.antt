-- ===== src/DebugCapture/Flows.antt =====
-- internal/debugcapture/user.go: the flows of a user as they are written into his capture.
-- A user is a number, and none is the empty text. The comment of a packet is a byte list.
pub mod Conversation
pub mod Recording
pub mod Replay
use quic_lab.Common.{
  ℕ, zero, suc, ◌+◌, ◌/◌, ◌%◌, ◌^◌, Bool, true, false, not, ◌&&◌, ◌||◌, Option, none, some, List,
  [], ◌∷◌, ◌++◌, ltb, ◌==◌, if◌then◌else◌, length, take, drop, replicate,
}
use quic_lab.Common.Bytes.{put_le}
use quic_lab.Common.Maps.{lookup, insert}
use quic_lab.DebugCapture.{padding, block}
use quic_lab.DebugCapture.Packets.{Flow, FlowState, flow_packet}
use quic_lab.DebugCapture.Session.{is_running, Kind, Session, emit, same_text, user_capture}
use quic_lab.DebugCapture.Manager.{Manager}

-- The body of the packet block of packetAt: header, packet, comment, end of the options.
unfoldable pub comment_body : List ℕ → List ℕ → ℕ → List ℕ
unfolding put_le
comment_body p comment micros =
    put_le 4 0
    ++ (put_le 4 (micros / 2 ^ 32)
        ++ (put_le 4 (micros % 2 ^ 32)
            ++ (put_le 4 (length p)
                ++ (put_le 4 (length p)
                    ++ ((p ++ replicate (padding (length p)) 0)
                        ++ (put_le 2 1
                            ++ (put_le 2 (length comment % 65536)
                                ++ ((comment ++ replicate (padding (length comment)) 0)
                                    ++ (0 ∷ 0 ∷ 0 ∷ 0 ∷ [])))))))))

-- Session.packetAt; an error of emit is dropped.
unfoldable pub packet_at : ℕ → List ℕ → List ℕ → ℕ → Session → Session
unfolding comment_body block emit
packet_at now p comment micros s =
    if length p == 0 || ltb 65535 (length p)
    then s
    else (emit now (block 6 (comment_body p comment (micros % 2 ^ 64))) s).1

-- capturedConn, less the connection below it.
pub record CapturedConn : Type 0 where
  pub flow : Flow
  pub user : ℕ
  pub comment : List ℕ
  pub states : List (ℕ × FlowState)

abbrev pub put_packet : ℕ → List ℕ → Option (List ℕ) → Session → Session
put_packet now comment none s = s
put_packet now comment (some p) s = packet_at now p comment (now / 1000) s

-- capturedConn.emit.
unfoldable pub emit_segment : ℕ → Flow → List ℕ → FlowState → Bool → List ℕ → ℕ → Session → Session
unfolding flow_packet packet_at
emit_segment now c comment state up payload flags s =
    put_packet now comment (flow_packet c state up payload flags) s

abbrev pub advance : Bool → ℕ → FlowState → FlowState
advance true n st = record st { up = (st.up + n) % 2 ^ 32 }
advance false n st = record st { down = (st.down + n) % 2 ^ 32 }

abbrev pub first_state : FlowState
first_state = record { up = 1000; down = 2000 }

-- record, for any way to send a segment.
module _ {ℓ} {S : Type ℓ} (send : FlowState → Bool → List ℕ → ℕ → S → S) where
  -- The loop over the data. Each round takes at least a byte, so the length is enough fuel.
  unfoldable pub send_chunks : ℕ → Bool → List ℕ → FlowState → S → FlowState × S
  send_chunks zero up p st s = (st, s)
  send_chunks (suc fuel) up [] st s = (st, s)
  send_chunks (suc fuel) up (x ∷ xs) st s =
      let chunk = take 1400 (x ∷ xs) in
      let next = advance up (length chunk) st in
      send_chunks fuel up (drop 1400 (x ∷ xs)) next
        (send next (not up) [] 16 (send st up chunk 24 s))

  -- The three segments that open a TCP flow.
  unfoldable pub handshake : S → FlowState × S
  handshake s =
      let opened = advance true 1 first_state in
      let both = advance false 1 opened in
      (both, send both true [] 16 (send opened false [] 18 (send first_state true [] 2 s)))

  abbrev pub state_of : Bool → Option FlowState → S → FlowState × S
  state_of udp (some st) s = (st, s)
  state_of udp none s = if udp then (first_state, s) else handshake s

  abbrev pub send_data : Bool → Bool → List ℕ → FlowState × S → FlowState × S
  send_data udp up p (st, s) =
      if udp then (st, send st up p 0 s) else send_chunks (length p) up p st s

  -- record, from the state that was found for the capture to the one that is kept.
  unfoldable pub record_data : Bool → Bool → List ℕ → Option FlowState → S → FlowState × S
  unfolding send_chunks handshake
  record_data udp up p found s = send_data udp up p (state_of udp found s)

-- The states of other captures are dropped when a flow meets a new one.
abbrev pub keep_state :
    ℕ → Option FlowState → FlowState → List (ℕ × FlowState) → List (ℕ × FlowState)
keep_state id none st states = (id, st) ∷ []
keep_state id (some old) st states = insert id st states

abbrev pub recorded : ℕ → CapturedConn → FlowState × Session → Manager → CapturedConn × Manager
recorded id c (st, s) m = (
  record c { states = keep_state id (lookup id c.states) st c.states },
  record m { sessions = insert id s m.sessions },
)

-- UserCapture: the key of the running capture of the user.
unfoldable pub user_capture_of : ℕ → List (ℕ × Session) → Option ℕ
user_capture_of user [] = none
user_capture_of user ((id, s) ∷ m) =
    let others = user_capture_of user m in
    if same_text s.user (some user) && is_user_kind s.kind && is_running s.state
    then some id
    else others
  where
    is_user_kind : Kind → Bool
    is_user_kind user_capture = true
    is_user_kind k = false

abbrev pub record_found :
    ℕ → Bool → List ℕ → CapturedConn → ℕ → Option Session → Manager → CapturedConn × Manager
record_found now up p c id none m = (c, m)
record_found now up p c id (some s) m =
    recorded id c
      (record_data (emit_segment now c.flow c.comment) c.flow.udp up p (lookup id c.states) s) m

abbrev pub record_in :
    ℕ → Bool → List ℕ → CapturedConn → Option ℕ → Manager → CapturedConn × Manager
record_in now up p c none m = (c, m)
record_in now up p c (some id) m = record_found now up p c id (lookup id m.sessions) m

-- capturedConn.record.
unfoldable pub record_flow : ℕ → Bool → List ℕ → CapturedConn → Manager → CapturedConn × Manager
unfolding user_capture_of record_data emit_segment lookup insert
record_flow now up p c m = record_in now up p c (user_capture_of c.user m.sessions) m

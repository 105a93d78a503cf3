-- ===== src/DebugCapture/Flows/Recording.antt =====
-- internal/debugcapture/user.go: the conversation that any reads and writes of a flow leave.
use quic_lab.Common.{
  ℕ, zero, suc, ◌≤◌, ◌≡◌, refl, ap, ◌∙◌, Bool, true, false, Option, none, some, List, [], ◌∷◌, ◌++◌,
  append_assoc, append-nil, arith, if◌then◌else◌, length, take, drop, take-append-drop, length-drop,
}
use quic_lab.DebugCapture.Packets.{FlowState}
use quic_lab.DebugCapture.Flows.{advance, first_state, send_chunks, handshake, record_data}
use quic_lab.DebugCapture.Flows.Conversation.{
  Segment, log, observe, same_way, data_of, Tells, up_round, down_round,
}

joined : (a p : List ℕ) → (a ++ take 1400 p) ++ drop 1400 p ≡ a ++ p
joined a p = append_assoc a (take 1400 p) (drop 1400 p) ∙ ap (λ q. a ++ q) (take-append-drop 1400 p)

chunks_up :
    (fuel : ℕ) (ups downs p : List ℕ) (st : FlowState) (l : List Segment)
    → length p ≤ fuel
    → Tells ups downs (st, l)
    → Tells (ups ++ p) downs (send_chunks log fuel true p st l)
unfolding send_chunks
chunks_up zero ups downs [] st l b h = rw (append-nil ups) h
chunks_up zero ups downs (x ∷ xs) st l b h = absurd (omega arith)
chunks_up (suc fuel) ups downs [] st l b h = rw (append-nil ups) h
chunks_up (suc fuel) ups downs (x ∷ xs) st l b h =
    let p = x ∷ xs in
    let later =
      chunks_up fuel (ups ++ take 1400 p) downs (drop 1400 p)
        (advance true (length (take 1400 p)) st)
        (log (advance true (length (take 1400 p)) st) false [] 16 (log st true (take 1400 p) 24 l))
        (omega (arith, length-drop 1400 p)) (up_round ups downs (take 1400 p) st l h) in
    rw (joined ups p) at later

chunks_down :
    (fuel : ℕ) (ups downs p : List ℕ) (st : FlowState) (l : List Segment)
    → length p ≤ fuel
    → Tells ups downs (st, l)
    → Tells ups (downs ++ p) (send_chunks log fuel false p st l)
unfolding send_chunks
chunks_down zero ups downs [] st l b h = rw (append-nil downs) h
chunks_down zero ups downs (x ∷ xs) st l b h = absurd (omega arith)
chunks_down (suc fuel) ups downs [] st l b h = rw (append-nil downs) h
chunks_down (suc fuel) ups downs (x ∷ xs) st l b h =
    let p = x ∷ xs in
    let later =
      chunks_down fuel ups (downs ++ take 1400 p) (drop 1400 p)
        (advance false (length (take 1400 p)) st)
        (log (advance false (length (take 1400 p)) st) true [] 16 (log st false (take 1400 p) 24 l))
        (omega (arith, length-drop 1400 p)) (down_round ups downs (take 1400 p) st l h) in
    rw (joined downs p) at later

-- Any Reads (`false`) and Writes of one TCP flow, in order, recorded into one capture.
unfoldable pub record_calls :
    List (Bool × List ℕ) → Option FlowState × List Segment → Option FlowState × List Segment
unfolding record_data
record_calls [] (found, l) = (found, l)
record_calls ((up, p) ∷ calls) (found, l) =
    let (st, l') = record_data log false up p found l in record_calls calls (some st, l')

abbrev pub joined_calls : Bool → List (Bool × List ℕ) → List ℕ
joined_calls way [] = []
joined_calls way ((up, p) ∷ calls) = (if same_way way up then p else []) ++ joined_calls way calls

abbrev pub state_or_first : Option FlowState → FlowState
state_or_first none = first_state
state_or_first (some st) = st

record_one :
    (up : Bool) (ups downs p : List ℕ) (st : FlowState) (l : List Segment)
    → Tells ups downs (st, l)
    → Tells
        (ups ++ (if same_way true up then p else []))
        (downs ++ (if same_way false up then p else []))
        (send_chunks log (length p) up p st l)
record_one true ups downs p st l h =
    rw (append-nil downs) (chunks_up (length p) ups downs p st l (omega arith) h)
record_one false ups downs p st l h =
    rw (append-nil ups) (chunks_down (length p) ups downs p st l (omega arith) h)

handshake-Tells : Tells [] [] (handshake log [])
unfolding handshake observe data_of
handshake-Tells = (refl, refl, refl, omega arith, omega arith)

calls_from :
    (calls : List (Bool × List ℕ)) (ups downs : List ℕ) (st : FlowState) (l : List Segment)
    → Tells ups downs (st, l)
    → Tells
        (ups ++ joined_calls true calls)
        (downs ++ joined_calls false calls)
        (state_or_first (record_calls calls (some st, l)).0, (record_calls calls (some st, l)).1)
unfolding record_calls record_data
calls_from [] ups downs st l h = rw (append-nil ups, append-nil downs) h
calls_from ((up, p) ∷ calls) ups downs st l h =
    let (st', l') = send_chunks log (length p) up p st l in
    let later =
      calls_from calls (ups ++ (if same_way true up then p else []))
        (downs ++ (if same_way false up then p else [])) st' l'
        (record_one up ups downs p st l h) in
    rw
      (
        append_assoc ups (if same_way true up then p else []) (joined_calls true calls),
        append_assoc downs (if same_way false up then p else []) (joined_calls false calls),
      )
      at later

-- However a TCP flow is read and written while one capture runs, the segments that are recorded are a
-- conversation that an observer can follow from the first SYN on, each sequence number and each
-- acknowledged number being the one that is expected; and the payloads in either direction, joined,
-- are the bytes written and the bytes read. The state kept is what the observer expects next.
pub record_calls-Tells :
    (calls : List (Bool × List ℕ))
    → Tells
        (joined_calls true calls)
        (joined_calls false calls)
        (state_or_first (record_calls calls (none, [])).0, (record_calls calls (none, [])).1)
unfolding record_calls record_data observe data_of
record_calls-Tells [] = (refl, refl, refl, omega arith, omega arith)
record_calls-Tells ((up, p) ∷ calls) =
    calls_from ((up, p) ∷ calls) [] [] (handshake log []).0 (handshake log []).1 handshake-Tells

-- ===== src/DebugCapture/Flows/Conversation.antt =====
-- internal/debugcapture/user.go: the TCP segments of a recorded flow, as an observer reads them.
use quic_lab.Common.{
  ℕ, ◌+◌, ◌/◌, ◌%◌, ◌^◌, ◌<◌, ◌≡◌, refl, ap, ◌∙◌, Bool, true, false, not, ◌&&◌, ◌||◌, Option, none,
  some, List, [], ◌∷◌, ◌++◌, append_assoc, append-nil, arith, ◌==◌, if◌then◌else◌, length,
}
use quic_lab.DebugCapture.Packets.{FlowState}
use quic_lab.DebugCapture.Flows.{advance, first_state}

-- A segment as emit is called for it.
pub record Segment : Type 0 where
  pub state : FlowState
  pub is_up : Bool
  pub payload : List ℕ
  pub flags : ℕ

abbrev pub log : FlowState → Bool → List ℕ → ℕ → List Segment → List Segment
log st up p flags l = l ++ (record { state = st; is_up = up; payload = p; flags = flags } ∷ [])

-- What one segment adds to what an observer expects: the sequence number has to be the expected one,
-- and so has the acknowledged number where the flag ACK is set. SYN counts as a byte.
abbrev pub follow : Segment → FlowState → Option FlowState
follow g expected =
    if g.is_up
    then (if g.state.up == expected.up && (g.flags / 16 % 2 == 0 || g.state.down == expected.down)
        then some (advance true (length g.payload + g.flags / 2 % 2) expected)
        else none)
    else (if g.state.down == expected.down && (g.flags / 16 % 2 == 0 || g.state.up == expected.up)
        then some (advance false (length g.payload + g.flags / 2 % 2) expected)
        else none)

abbrev pub then_follow : Segment → Option FlowState → Option FlowState
then_follow g none = none
then_follow g (some expected) = follow g expected

unfoldable pub observe : Option FlowState → List Segment → Option FlowState
observe expected [] = expected
observe expected (g ∷ l) = observe (then_follow g expected) l

abbrev pub same_way : Bool → Bool → Bool
same_way true b = b
same_way false b = not b

-- The payloads in one direction, joined.
unfoldable pub data_of : Bool → List Segment → List ℕ
data_of up [] = []
data_of up (g ∷ l) = (if same_way up g.is_up then g.payload else []) ++ data_of up l

observe-snoc :
    (l : List Segment) (o : Option FlowState) (g : Segment)
    → observe o (l ++ (g ∷ [])) ≡ then_follow g (observe o l)
unfolding observe
observe-snoc [] o g = refl
observe-snoc (h ∷ l) o g = observe-snoc l (then_follow h o) g

data_of-snoc :
    (up : Bool) (l : List Segment) (g : Segment)
    → data_of up (l ++ (g ∷ [])) ≡ data_of up l ++ (if same_way up g.is_up then g.payload else [])
unfolding data_of
data_of-snoc up [] g = append-nil (if same_way up g.is_up then g.payload else [])
data_of-snoc up (h ∷ l) g = rw (data_of-snoc up l g, append_assoc) refl

-- The observer follows, and has read `ups` in one direction and `downs` in the other.
abbrev pub Tells : List ℕ → List ℕ → FlowState × List Segment → Type 0
Tells ups downs (st, l) =
    (observe (some first_state) l ≡ some st)
    × (data_of true l ≡ ups)
    × (data_of false l ≡ downs)
    × (st.up < 2 ^ 32)
    × (st.down < 2 ^ 32)

-- An observer accepts a segment that carries the state it expects.
follow_up :
    (p : List ℕ) (st : FlowState) (flags : ℕ)
    → follow (record { state = st; is_up = true; payload = p; flags = flags }) st
      ≡ some (advance true (length p + flags / 2 % 2) st)
follow_up p st flags = ground arith

follow_down :
    (p : List ℕ) (st : FlowState) (flags : ℕ)
    → follow (record { state = st; is_up = false; payload = p; flags = flags }) st
      ≡ some (advance false (length p + flags / 2 % 2) st)
follow_down p st flags = ground arith

up_segment :
    (ups downs p : List ℕ) (st : FlowState) (flags n : ℕ) (l : List Segment)
    → length p + flags / 2 % 2 ≡ n
    → Tells ups downs (st, l)
    → Tells (ups ++ p) downs (advance true n st, log st true p flags l)
up_segment ups downs p st flags n l e (seen, du, dd, bu, bd) = (
  rw (observe-snoc l, seen) (rw (← e) (follow_up p st flags)),
  rw (data_of-snoc true l, du) refl,
  rw (data_of-snoc false l, dd) (append-nil downs),
  omega arith,
  bd,
)

down_segment :
    (ups downs p : List ℕ) (st : FlowState) (flags n : ℕ) (l : List Segment)
    → length p + flags / 2 % 2 ≡ n
    → Tells ups downs (st, l)
    → Tells ups (downs ++ p) (advance false n st, log st false p flags l)
down_segment ups downs p st flags n l e (seen, du, dd, bu, bd) = (
  rw (observe-snoc l, seen) (rw (← e) (follow_down p st flags)),
  rw (data_of-snoc true l, du) (append-nil ups),
  rw (data_of-snoc false l, dd) refl,
  bu,
  omega arith,
)

advance_zero_up : (st : FlowState) → st.up < 2 ^ 32 → advance true 0 st ≡ st
advance_zero_up st h = let e : (st.up + 0) % 2 ^ 32 ≡ st.up = omega arith in rw e refl

advance_zero_down : (st : FlowState) → st.down < 2 ^ 32 → advance false 0 st ≡ st
advance_zero_down st h = let e : (st.down + 0) % 2 ^ 32 ≡ st.down = omega arith in rw e refl

-- An empty answer changes nothing for the observer.
empty_up :
    (ups downs : List ℕ) (st : FlowState) (l : List Segment)
    → Tells ups downs (st, l)
    → Tells ups downs (st, log st true [] 16 l)
empty_up ups downs st l (seen, du, dd, bu, bd) = (
  rw (observe-snoc l, seen) (follow_up [] st 16 ∙ ap some (advance_zero_up st bu)),
  rw (data_of-snoc true l, du) (append-nil ups),
  rw (data_of-snoc false l, dd) (append-nil downs),
  bu,
  bd,
)

empty_down :
    (ups downs : List ℕ) (st : FlowState) (l : List Segment)
    → Tells ups downs (st, l)
    → Tells ups downs (st, log st false [] 16 l)
empty_down ups downs st l (seen, du, dd, bu, bd) = (
  rw (observe-snoc l, seen) (follow_down [] st 16 ∙ ap some (advance_zero_down st bd)),
  rw (data_of-snoc true l, du) (append-nil ups),
  rw (data_of-snoc false l, dd) (append-nil downs),
  bu,
  bd,
)

-- One round of the loop: a chunk and the empty answer of the other side.
pub up_round :
    (ups downs p : List ℕ) (st : FlowState) (l : List Segment)
    → Tells ups downs (st, l)
    → Tells (ups ++ p) downs (
      advance true (length p) st,
      log (advance true (length p) st) false [] 16 (log st true p 24 l),
    )
up_round ups downs p st l h =
    let next = advance true (length p) st in
    let sent = up_segment ups downs p st 24 (length p) l (omega arith) h in
    empty_down (ups ++ p) downs next (log st true p 24 l) sent

pub down_round :
    (ups downs p : List ℕ) (st : FlowState) (l : List Segment)
    → Tells ups downs (st, l)
    → Tells ups (downs ++ p) (
      advance false (length p) st,
      log (advance false (length p) st) true [] 16 (log st false p 24 l),
    )
down_round ups downs p st l h =
    let next = advance false (length p) st in
    let sent = down_segment ups downs p st 24 (length p) l (omega arith) h in
    empty_up ups (downs ++ p) next (log st false p 24 l) sent

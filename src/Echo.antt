-- ===== src/Echo.antt =====
-- internal/echo/transit.go: the replies to the transit frames of one client. Probes run beside the
-- reader, and all clients share sixteen slots for them.
pub mod Replies
use quic_lab.Common.{
  ℕ, ◌+◌, ◌-◌, Bool, true, false, not, ◌||◌, Option, none, some, List, [], ◌∷◌, ◌++◌, ltb, leb,
  ◌==◌, if◌then◌else◌,
}

-- The fields of protocol.Frame that are read or written here, and the number of the frame.
pub record Frame : Type 0 where
  pub seq : ℕ
  pub transit : Bool
  pub transit_ok : Bool
  pub transit_supported : Bool

-- transitReplies, with the probes under way, what was written, and the shared slots in use.
pub record TransitReplies : Type 0 where
  pub has_probe : Bool
  pub last : ℕ
  pub cancelled : Bool
  pub probing : List Frame
  pub written : List Frame
  pub slots_in_use : ℕ

abbrev pub max_probes : ℕ
max_probes = 16

abbrev pub probe_interval : ℕ
probe_interval = 1_000_000_000

abbrev pub answer : Frame → TransitReplies → TransitReplies
answer f r = record r { written = r.written ++ (f ∷ []) }

-- handle: whether the frame was taken.
unfoldable pub handle_frame : ℕ → Frame → TransitReplies → Bool × TransitReplies
handle_frame now f r =
    let marked = record f { transit_ok = false; transit_supported = r.has_probe } in
    if not f.transit
    then (false, r)
    else if not r.has_probe || ltb (now - r.last) probe_interval
    then (true, answer marked r)
    else if leb max_probes r.slots_in_use
    then (true, answer marked (record r { last = now }))
    else (
      true,
      record r {
        last = now;
        probing = r.probing ++ (marked ∷ []);
        slots_in_use = r.slots_in_use + 1;
      },
    )

-- Takes the first probe of the frame number out of those under way.
unfoldable pub take_probe : ℕ → List Frame → Option (Frame × List Frame)
take_probe seq [] = none
take_probe seq (f ∷ fs) =
    let later = take_probe seq fs in
    if f.seq == seq
    then some (f, fs)
    else elim later [ none ↦ none | some (g, rest) ↦ some (g, f ∷ rest) ]

abbrev pub finished : Bool → Option (Frame × List Frame) → TransitReplies → TransitReplies
finished works none r = r
finished works (some (f, rest)) r =
    let left = record r { probing = rest; slots_in_use = r.slots_in_use - 1 } in
    if r.cancelled then left else answer (record f { transit_ok = works }) left

-- The end of a probe's goroutine; `works` is whether the probe succeeded.
unfoldable pub finish_probe : ℕ → Bool → TransitReplies → TransitReplies
unfolding take_probe
finish_probe seq works r = finished works (take_probe seq r.probing) r

-- close, before it waits for the probes.
unfoldable pub cancel_replies : TransitReplies → TransitReplies
cancel_replies r = record r { cancelled = true }

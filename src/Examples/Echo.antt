-- ===== src/Examples/Echo.antt =====
-- internal/echo/transit.go at concrete inputs: a client with one probe sends two transit frames.
use quic_lab.Common.{ℕ, ◌≤◌, ◌≡◌, refl, Bool, true, false, [], ◌∷◌, map, arith, length}
use quic_lab.Echo.{Frame, TransitReplies, handle_frame, take_probe, finish_probe}
use quic_lab.Echo.Replies.{count_seq, written-all, handles, finishes, nothing_read, and_then_step}

abbrev transit_frame : ℕ → Frame
transit_frame n = record { seq = n; transit = true; transit_ok = false; transit_supported = false }

abbrev first_replies : TransitReplies
first_replies = record {
  has_probe = true;
  last = 0;
  cancelled = false;
  probing = [];
  written = [];
  slots_in_use = 3;
}

-- The first frame starts a probe, and the second comes too early for another.
abbrev both_read : TransitReplies
both_read =
    (handle_frame 2_500_000_000 (transit_frame 2)
      (handle_frame 2_000_000_000 (transit_frame 1) first_replies).1).1

abbrev both_answered : TransitReplies
both_answered = finish_probe 1 true both_read

abbrev verdict : Frame → ℕ × Bool
verdict f = (f.seq, f.transit_ok)

both_answered-written : map verdict both_answered.written ≡ (2, false) ∷ (1, true) ∷ []
unfolding handle_frame take_probe finish_probe
both_answered-written = refl

written-all_example :
    (length both_answered.probing ≤ 16)
    × (both_answered.probing ≡ []
        → (n : ℕ)
        → count_seq n both_answered.written ≡ count_seq n (transit_frame 1 ∷ transit_frame 2 ∷ []))
written-all_example =
    written-all true 3 both_answered (transit_frame 1 ∷ transit_frame 2 ∷ []) (omega arith) (
      and_then_step
        (and_then_step (and_then_step nothing_read (handles 2_000_000_000 (transit_frame 1)))
          (handles 2_500_000_000 (transit_frame 2)))
        (finishes 1 true))

-- ===== src/Echo/Replies.antt =====
-- internal/echo/transit.go: every transit frame has exactly one reply, at once or behind its probe.
use mathlib.Core.Path.{subst}
use quic_lab.Common.{
  ℕ, ◌+◌, ◌-◌, ◌≤◌, ◌≡◌, refl, sym, Bool, true, false, not, ◌||◌, Option, none, some, List, [], ◌∷◌,
  ◌++◌, append-nil, arith, ltb, leb, ◌==◌, if◌then◌else◌, if_cases, length, length-append,
}
use quic_lab.Echo.{
  Frame, TransitReplies, max_probes, probe_interval, answer, handle_frame, take_probe, finished,
  finish_probe,
}

-- The calls and events; other clients take and free slots.
pub data TransitStep (r : TransitReplies) : TransitReplies → List Frame → Type 0 where
  handles :
      (now : ℕ) (f : Frame)
      → TransitStep r (handle_frame now f r).1 (if f.transit then f ∷ [] else [])
  finishes : (seq : ℕ) (works : Bool) → TransitStep r (finish_probe seq works r) []
  others :
      (n : ℕ)
      → length r.probing ≤ n
      → n ≤ max_probes
      → TransitStep r (record r { slots_in_use = n }) []

-- The transit frames that were read, in order.
pub data TransitReach (r : TransitReplies) : TransitReplies → List Frame → Type 0 where
  nothing_read : TransitReach r r []
  and_then_step :
      {s t : TransitReplies} {read more : List Frame}
      → TransitReach r s read
      → TransitStep s t more
      → TransitReach r t (read ++ more)

unfoldable pub count_seq : ℕ → List Frame → ℕ
count_seq n [] = 0
count_seq n (f ∷ fs) = (if f.seq == n then 1 else 0) + count_seq n fs

count_seq-append :
    (n : ℕ) (fs gs : List Frame) → count_seq n (fs ++ gs) ≡ count_seq n fs + count_seq n gs
unfolding count_seq
count_seq-append n [] gs = omega arith
count_seq-append n (f ∷ fs) gs = omega (arith, count_seq-append n fs gs)

-- Each frame number is answered or being probed as often as it was read.
abbrev pub IsServed : TransitReplies → List Frame → Type 0
IsServed r read =
    ((n : ℕ) → count_seq n r.written + count_seq n r.probing ≡ count_seq n read)
    × (length r.probing ≤ r.slots_in_use)
    × (r.slots_in_use ≤ max_probes)
    × (r.cancelled ≡ false)

-- One more frame was read, and it is answered or being probed.
more_written :
    (f g : Frame) (r : TransitReplies) (read : List Frame) (n : ℕ)
    → g.seq ≡ f.seq
    → count_seq n r.written + count_seq n r.probing ≡ count_seq n read
    → count_seq n (r.written ++ (g ∷ [])) + count_seq n r.probing ≡ count_seq n (read ++ (f ∷ []))
unfolding count_seq
more_written f g r read n same h =
    rw (count_seq-append n r.written (g ∷ []), count_seq-append n read (f ∷ []), same)
      (omega (arith, h))

more_probing :
    (f g : Frame) (r : TransitReplies) (read : List Frame) (n : ℕ)
    → g.seq ≡ f.seq
    → count_seq n r.written + count_seq n r.probing ≡ count_seq n read
    → count_seq n r.written + count_seq n (r.probing ++ (g ∷ [])) ≡ count_seq n (read ++ (f ∷ []))
unfolding count_seq
more_probing f g r read n same h =
    rw (count_seq-append n r.probing (g ∷ []), count_seq-append n read (f ∷ []), same)
      (omega (arith, h))

-- The two ways to take a frame.
answer-IsServed :
    (f g : Frame) (r : TransitReplies) (read : List Frame)
    → g.seq ≡ f.seq
    → IsServed r read
    → IsServed (answer g r) (read ++ (f ∷ []))
answer-IsServed f g r read same (counts, few, slots, open_now) =
    ((λ n. more_written f g r read n same (counts n)), few, slots, open_now)

handle-IsServed :
    (now : ℕ) (f : Frame) (r : TransitReplies) (read : List Frame)
    → IsServed r read
    → IsServed (handle_frame now f r).1 (read ++ (if f.transit then f ∷ [] else []))
unfolding handle_frame
handle-IsServed now f r read (counts, few, slots, open_now) =
    if_cases
      (λ (x : Bool × TransitReplies). IsServed x.1 (read ++ (if f.transit then f ∷ [] else [])))
      (not f.transit) _ _
      (λ e. subst (IsServed r) (sym (none_read f.transit e)) (counts, few, slots, open_now))
      (λ e. subst (IsServed taken.1) (sym (one_read f.transit e)) (
        if_cases P (not r.has_probe || ltb (now - r.last) probe_interval) _ _
          (λ x. answer-IsServed f marked r read refl (counts, few, slots, open_now))
          (λ x.
            if_cases P (leb max_probes r.slots_in_use) _ _
              (λ y.
                answer-IsServed f marked (record r { last = now }) read refl
                  (counts, few, slots, open_now))
              (λ y. (
                (λ n. more_probing f marked r read n refl (counts n)),
                omega (arith, length-append r.probing (marked ∷ []), few),
                ground arith,
                open_now,
              )))))
  where
    marked : Frame
    marked = record f { transit_ok = false; transit_supported = r.has_probe }

    taken : Bool × TransitReplies
    taken =
        if not r.has_probe || ltb (now - r.last) probe_interval
        then (true, answer marked r)
        else if leb max_probes r.slots_in_use
        then (true, answer marked (record r { last = now }))
        else (
          true,
          record r {
            last = now;
            probing = r.probing ++ (marked ∷ []);
            slots_in_use = r.slots_in_use + 1;
          },
        )

    P : Bool × TransitReplies → Type 0
    P x = IsServed x.1 (read ++ (f ∷ []))

    none_read : (b : Bool) → not b ≡ true → read ++ (if b then f ∷ [] else []) ≡ read
    none_read false e = append-nil read
    none_read true e = ground arith

    one_read : (b : Bool) → not b ≡ false → read ++ (if b then f ∷ [] else []) ≡ read ++ (f ∷ [])
    one_read true e = refl
    one_read false e = ground arith

-- What take_probe finds is one of the frames, and the rest are the others.
abbrev Taken : List Frame → Option (Frame × List Frame) → Type 0
Taken fs none = Unit {0}
Taken fs (some (f, rest)) =
    ((n : ℕ) → count_seq n fs ≡ (if f.seq == n then 1 else 0) + count_seq n rest)
    × (length fs ≡ length rest + 1)

take_later :
    (f : Frame) (fs : List Frame) (o : Option (Frame × List Frame))
    → Taken fs o
    → Taken (f ∷ fs) (elim o [ none ↦ none | some (g, rest) ↦ some (g, f ∷ rest) ])
unfolding count_seq
take_later f fs none h = tt
take_later f fs (some (g, rest)) (counts, size) =
    ((λ n. omega (arith, counts n)), omega (arith, size))

take_probe-Taken : (seq : ℕ) (fs : List Frame) → Taken fs (take_probe seq fs)
unfolding take_probe count_seq
take_probe-Taken seq [] = tt
take_probe-Taken seq (f ∷ fs) =
    if_cases (Taken (f ∷ fs)) (f.seq == seq) _ _ (λ e. ((λ n. refl), omega arith))
      (λ e. take_later f fs (take_probe seq fs) (take_probe-Taken seq fs))

finished-IsServed :
    (works : Bool) (o : Option (Frame × List Frame)) (r : TransitReplies) (read : List Frame)
    → Taken r.probing o
    → IsServed r read
    → IsServed (finished works o r) read
unfolding count_seq
finished-IsServed works none r read taken served = served
finished-IsServed works (some (f, rest)) r read (taken, size) (counts, few, slots, open_now) =
    rw open_now (
      (λ n.
          let one = record f { transit_ok = works } in
          rw (count_seq-append n r.written (one ∷ [])) (omega (arith, counts n, taken n))),
      omega (arith, few, size),
      omega (arith, slots),
      refl,
    )

step-IsServed :
    {r s : TransitReplies} (read : List Frame) {more : List Frame}
    → TransitStep r s more
    → IsServed r read
    → IsServed s (read ++ more)
unfolding finish_probe
step-IsServed {r} {s} read (handles now f) served = handle-IsServed now f r read served
step-IsServed {r} {s} read (finishes seq works) served = rw (append-nil read) (
    finished-IsServed works (take_probe seq r.probing) r read (take_probe-Taken seq r.probing)
      served)
step-IsServed {r} {s} read (others n enough limit) (counts, few, slots, open_now) =
    rw (append-nil read) (counts, enough, limit, open_now)

reach-IsServed :
    {r s : TransitReplies} {read : List Frame}
    → TransitReach r s read
    → IsServed r []
    → IsServed s read
reach-IsServed nothing_read served = served
reach-IsServed (and_then_step {read = read} r step) served =
    step-IsServed read step (reach-IsServed r served)

-- From a client's start, whatever it sends, however its probes end and whatever the other clients do
-- with the slots, until the client is closed: once no probe is under way, every transit frame that
-- was read has been answered, as often as its number was read. At most sixteen probes run at a time.
pub written-all :
    (has_probe : Bool) (used : ℕ) (r : TransitReplies) (read : List Frame)
    → used ≤ max_probes
    → TransitReach
        (record {
          has_probe = has_probe;
          last = 0;
          cancelled = false;
          probing = [];
          written = [];
          slots_in_use = used;
        })
        r
        read
    → (length r.probing ≤ max_probes)
      × (r.probing ≡ [] → (n : ℕ) → count_seq n r.written ≡ count_seq n read)
unfolding count_seq
written-all has_probe used r read small reach =
    let (counts, few, slots, open_now) =
      reach-IsServed reach ((λ n. refl), omega arith, small, refl) in
    (omega (arith, few, slots), λ e n. omega (arith, (rw e at (counts n))))

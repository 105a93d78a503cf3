-- ===== src/Gateway/Datagram/Reassembly.antt =====
-- DatagramFlow.accept (internal/gateway/datagram.go) on the pieces of one packet, in any order.
use quic_lab.Common.{
  ℕ, ◌+◌, ◌-◌, ◌^◌, ◌≤◌, ◌<◌, ◌≡◌, refl, sym, ap, ◌∙◌, ◌≢◌, false, Option, none, some, List, [],
  ◌∷◌, ◌++◌, arith, lt→ltb, ==_refl, length, get_elem?, set, replicate, All, take_all, length-set,
  length-replicate, get_elem?-set_ne, get_elem?-replicate,
}
use quic_lab.Common.Maps.{lookup, insert, keep, lookup-insert, lookup-delete}
use quic_lab.Gateway.Datagram.{
  DatagramFlow, deliver, is_fresh, settle, new_assembly, accept_fragment, accept_all, fragment,
  piece, piece_count,
}
use quic_lab.Gateway.Datagram.Fragments.{
  pieces_from, piece_lem, length-pieces_from, piece_wellformed,
}
use quic_lab.Gateway.Datagram.Assemblies.{
  Fits, filled, replicate-Fits, filled-replicate, filled-set,
}
use quic_lab.Gateway.Datagram.Pieces.{
  assembly_of, after_piece, after-Fits, settle_more, settle_done, accept_fields, unexpired,
  held_fragment, first_fragment,
}
use mathlib.Core.Path.{subst}

-- Between two pieces: the assembly holds the pieces that came, and the queue is as it was.
abbrev Waiting : ℕ → ℕ → List ℕ → List (List ℕ) → List (Option (List ℕ)) → DatagramFlow → Type 0
Waiting seq start b queue ps f =
    (f.done ≡ false)
    × (f.recv ≡ queue)
    × (lookup seq f.parts ≡ some (assembly_of start ps))
    × Fits ps (pieces_from (piece_count b) 0 b)
    × (length ps ≡ piece_count b)

-- The packet has been handed over, and its assembly is gone.
abbrev pub Finished : ℕ → List ℕ → List (List ℕ) → DatagramFlow → Type 0
Finished seq b queue f = (f.recv ≡ queue ++ (b ∷ [])) × (lookup seq f.parts ≡ none)

module _ (seq start : ℕ) (b : List ℕ) (queue : List (List ℕ)) (ps : List (Option (List ℕ))) (i : ℕ)
    (f : DatagramFlow) (small : length b ≤ 65507) (open_still : f.done ≡ false)
    (same : f.recv ≡ queue) (fits : Fits ps (pieces_from (piece_count b) 0 b))
    (whole : length ps ≡ piece_count b) (missing : get_elem? ps i ≡ some none)
    (below : i < piece_count b) where
  settle-Waiting :
      filled ps + 1 < piece_count b
      → Waiting seq start b queue
          (set ps i (some (piece i b)))
          (settle seq (piece_count b) (assembly_of start (set ps i (some (piece i b)))) f).0
  unfolding after_piece
  settle-Waiting more = rw (settle_more seq start b ps i f small fits whole missing below more) (
    open_still,
    same,
    lookup-insert seq seq _ f.parts ∙ rw (==_refl seq),
    after-Fits seq start b ps i f small fits whole missing below,
    length-set ps i (some (piece i b)) ∙ whole,
  )

  settle-Finished :
      filled ps + 1 ≡ piece_count b
      → length queue < 32
      → Finished seq b queue
          (settle seq (piece_count b) (assembly_of start (set ps i (some (piece i b)))) f).0
  unfolding after_piece
  settle-Finished complete room =
      rw (settle_done seq start b ps i f small fits whole missing below complete (rw same room))
        (ap (λ q. q ++ (b ∷ [])) same, lookup-delete seq seq f.parts ∙ rw (==_refl seq))

-- The datagrams of the pieces of `b`, by arrival: the time, and the place of the piece.
abbrev pub datagrams : ℕ → ℕ → List ℕ → List (ℕ × ℕ) → List (ℕ × List ℕ)
datagrams id seq b [] = []
datagrams id seq b ((now, i) ∷ rest) =
    (now, fragment id seq i (piece_count b) (piece i b)) ∷ datagrams id seq b rest

-- No place comes twice.
abbrev pub Distinct : List (ℕ × ℕ) → Type 0
Distinct [] = Unit {0}
Distinct ((now, i) ∷ rest) = All (λ (x : ℕ × ℕ). i ≢ x.1) rest × Distinct rest

abbrev pub InTime : ℕ → List (ℕ × ℕ) → Type 0
InTime start = All (λ (x : ℕ × ℕ). x.0 - start ≤ 500_000_000)

abbrev Missing : List (Option (List ℕ)) → List (ℕ × ℕ) → Type 0
Missing ps = All (λ (x : ℕ × ℕ). get_elem? ps x.1 ≡ some none)

Missing-set :
    (ps : List (Option (List ℕ))) (i : ℕ) (c : List ℕ) (rest : List (ℕ × ℕ))
    → All (λ (x : ℕ × ℕ). i ≢ x.1) rest
    → Missing ps rest
    → Missing (set ps i (some c)) rest
Missing-set ps i c [] d m = tt
Missing-set ps i c (x ∷ rest) d m =
    (get_elem?-set_ne ps i x.1 (some c) d.0 ∙ m.0, Missing-set ps i c rest d.1 m.1)

abbrev pub Places : List ℕ → List (ℕ × ℕ) → Type 0
Places b = All (λ (x : ℕ × ℕ). x.1 < piece_count b)

-- One piece that comes into its assembly, at the head of the arrivals.
accept_held :
    (id seq start now i : ℕ) (b : List ℕ) (ps : List (Option (List ℕ))) (rest : List (ℕ × ℕ))
    (f : DatagramFlow)
    → id < 2 ^ 64
    → seq < 2 ^ 32
    → length b ≤ 65507
    → f.done ≡ false
    → Fits ps (pieces_from (piece_count b) 0 b)
    → length ps ≡ piece_count b
    → get_elem? ps i ≡ some none
    → i < piece_count b
    → 2 ≤ piece_count b
    → lookup seq f.parts ≡ some (assembly_of start ps)
    → now - start ≤ 500_000_000
    → accept_all (datagrams id seq b ((now, i) ∷ rest)) f
      ≡ accept_all
          (datagrams id seq b rest)
          (settle seq
            (piece_count b)
            (assembly_of start (set ps i (some (piece i b))))
            (unexpired now f)).0
unfolding accept_all
accept_held id seq start now i b ps rest f hid hseq small o fits whole missing below two held
      fresh =
    ap (accept_all (datagrams id seq b rest)) (
      ap (λ (r : DatagramFlow × ℕ). r.0) (accept_fields now id seq b i f hid hseq small below o)
      ∙ held_fragment now seq start b ps i f small fits whole missing below two held fresh)

-- The pieces that are still to come, each once and in time, complete the packet.
accept_rest :
    (id seq start : ℕ) (b : List ℕ) (queue : List (List ℕ)) (ps : List (Option (List ℕ)))
    (x : ℕ × ℕ) (rest : List (ℕ × ℕ)) (f : DatagramFlow)
    → id < 2 ^ 64
    → seq < 2 ^ 32
    → length b ≤ 65507
    → length queue < 32
    → 2 ≤ piece_count b
    → Waiting seq start b queue ps f
    → Places b (x ∷ rest)
    → Distinct (x ∷ rest)
    → InTime start (x ∷ rest)
    → Missing ps (x ∷ rest)
    → filled ps + length (x ∷ rest) ≡ piece_count b
    → Finished seq b queue (accept_all (datagrams id seq b (x ∷ rest)) f)
accept_rest id seq start b queue ps (now, i) [] f hid hseq small room two (o, s, h, fits, whole)
      places distinct timely missing count =
    subst (Finished seq b queue)
      (sym (
        accept_held id seq start now i b ps [] f hid hseq small o fits whole missing.0 places.0 two
          h timely.0))
      (unfold accept_all in
        (settle-Finished seq start b queue ps i (unexpired now f) small o s fits whole missing.0
          places.0 count room))
accept_rest id seq start b queue ps (now, i) (y ∷ rest) f hid hseq small room two
      (o, s, h, fits, whole) places distinct timely missing count =
    subst (Finished seq b queue)
      (sym (
        accept_held id seq start now i b ps (y ∷ rest) f hid hseq small o fits whole missing.0
          places.0 two h timely.0))
      (accept_rest id seq start b queue (set ps i (some (piece i b))) y rest _ hid hseq small room
        two
        (settle-Waiting seq start b queue ps i (unexpired now f) small o s fits whole missing.0
          places.0 (omega arith))
        places.1 distinct.1 timely.1 (Missing-set ps i (piece i b) (y ∷ rest) distinct.0 missing.1)
        (omega (arith, filled-set ps i (piece i b) missing.0)))

accept_first :
    (id seq now i : ℕ) (b : List ℕ) (rest : List (ℕ × ℕ)) (f : DatagramFlow)
    → id < 2 ^ 64
    → seq < 2 ^ 32
    → length b ≤ 65507
    → f.done ≡ false
    → i < piece_count b
    → 2 ≤ piece_count b
    → lookup seq f.parts ≡ none
    → length f.parts < 8
    → accept_all (datagrams id seq b ((now, i) ∷ rest)) f
      ≡ accept_all
          (datagrams id seq b rest)
          (settle seq
            (piece_count b)
            (assembly_of now (set (replicate (piece_count b) none) i (some (piece i b))))
            (record f {
              parts = insert seq (new_assembly now (piece_count b)) (keep (is_fresh now) f.parts);
            })).0
unfolding accept_all
accept_first id seq now i b rest f hid hseq small o below two new few =
    ap (accept_all (datagrams id seq b rest)) (
      ap (λ (r : DatagramFlow × ℕ). r.0) (accept_fields now id seq b i f hid hseq small below o)
      ∙ first_fragment now seq b i f small below two new few)

-- A packet of one piece needs no assembly.
accept_single :
    (id seq now : ℕ) (b : List ℕ) (i : ℕ) (f : DatagramFlow)
    → id < 2 ^ 64
    → seq < 2 ^ 32
    → length b ≤ 65507
    → f.done ≡ false
    → i < piece_count b
    → piece_count b ≡ 1
    → lookup seq f.parts ≡ none
    → length f.recv < 32
    → Finished seq b f.recv (accept_all (datagrams id seq b ((now, i) ∷ [])) f)
unfolding accept_all accept_fragment deliver
accept_single id seq now b i f hid hseq small o below one new room =
    let first : i ≡ 0 = omega arith in
    let short : length b ≤ 1000 = omega arith in
    let all_of_it : piece i b ≡ b =
      ap (λ (k : ℕ). piece k b) first ∙ piece_lem 0 b ∙ take_all 1000 b short in
    subst (λ (r : DatagramFlow × ℕ). Finished seq b f.recv r.0)
      (sym (accept_fields now id seq b i f hid hseq small below o))
      (rw (piece_wellformed b i small below, one, all_of_it, lt→ltb (length f.recv) 32 room)
        (refl, new))

-- All pieces of a packet of at most 65507 bytes, cut as Write cuts them and received in any order,
-- each once and at most 500 ms after the first, put exactly that packet at the end of the flow's
-- queue and leave no assembly of it. The flow is open, its queue and its table of assemblies have
-- room, and no other packet with that number is being put together. What else the flow is putting
-- together does not matter.
pub accept_all-datagrams :
    (id seq : ℕ) (b : List ℕ) (x : ℕ × ℕ) (rest : List (ℕ × ℕ)) (f : DatagramFlow)
    → id < 2 ^ 64
    → seq < 2 ^ 32
    → length b ≤ 65507
    → f.done ≡ false
    → length f.recv < 32
    → length f.parts < 8
    → lookup seq f.parts ≡ none
    → Places b (x ∷ rest)
    → Distinct (x ∷ rest)
    → InTime x.0 rest
    → length (x ∷ rest) ≡ piece_count b
    → Finished seq b f.recv (accept_all (datagrams id seq b (x ∷ rest)) f)
accept_all-datagrams id seq b (now, i) [] f hid hseq small o room few new places distinct timely
      count =
    accept_single id seq now b i f hid hseq small o places.0 (sym count) new room
accept_all-datagrams id seq b (now, i) (y ∷ rest) f hid hseq small o room few new places distinct
      timely count =
    let t = piece_count b in
    let f' : DatagramFlow = record f {
      parts = insert seq (new_assembly now t) (keep (is_fresh now) f.parts);
    } in
    let fits : Fits (replicate t none) (pieces_from t 0 b) =
      subst (λ n. Fits (replicate n none) (pieces_from t 0 b)) (length-pieces_from t 0 b)
        (replicate-Fits (pieces_from t 0 b)) in
    let none_yet = all_missing b (y ∷ rest) places.1 in
    let start_missing = get_elem?-replicate t i none places.0 in
    subst (Finished seq b f.recv)
      (sym
        (accept_first id seq now i b (y ∷ rest) f hid hseq small o places.0 (omega arith) new few))
      (accept_rest id seq now b f.recv (set (replicate t none) i (some (piece i b))) y rest _ hid
        hseq small room (omega arith)
        (settle-Waiting seq now b f.recv (replicate t none) i f' small o refl fits
          (length-replicate t none) start_missing places.0 (omega (arith, filled-replicate t)))
        places.1 distinct.1 timely
        (Missing-set (replicate t none) i (piece i b) (y ∷ rest) distinct.0 none_yet)
        (omega
          (arith, filled-set (replicate t none) i (piece i b) start_missing, filled-replicate t)))
  where
    all_missing :
        (b : List ℕ) (l : List (ℕ × ℕ)) → Places b l → Missing (replicate (piece_count b) none) l
    all_missing b [] h = tt
    all_missing b (z ∷ l) h =
        (get_elem?-replicate (piece_count b) z.1 none h.0, all_missing b l h.1)

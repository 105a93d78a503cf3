-- ===== src/Gateway/Datagram/EndToEnd.antt =====
-- What DatagramFlow.Write queues at one end of a connection, handed to `accept` at the other
-- (internal/gateway/datagram.go).
use quic_lab.Common.{
  ℕ, zero, suc, ◌+◌, ◌%◌, ◌^◌, ◌≤◌, ◌<◌, ◌≡◌, refl, sym, ap, ◌∙◌, ◌≢◌, false, ◌||◌, none, List, [],
  ◌∷◌, ◌++◌, append_assoc, append-nil, arith, if◌then◌else◌, lt→ltb, le→ltb, length, All,
  length-append, Result, net_closed, deadline_exceeded, message, ok, err,
}
use quic_lab.Common.Maps.{lookup, insert}
use quic_lab.Gateway.Datagram.{
  DatagramFlow, accept_all, Queued, DatagramMux, fragment, piece, piece_count, enqueue, past,
  flow_write,
}
use quic_lab.Gateway.Datagram.Reassembly.{
  Finished, datagrams, Distinct, InTime, Places, accept_all-datagrams,
}
use mathlib.Core.Path.{subst, subst₂}

-- What the loop of Write queues from piece `i` on, if there is room.
abbrev queued_from : ℕ → ℕ → ℕ → ℕ → DatagramFlow → List ℕ → List Queued
queued_from zero i seq now f b = []
queued_from (suc left) i seq now f b =
    record {
      flow = f.serial;
      payload = fragment f.id seq i (piece_count b) (piece i b);
      at_time = now;
    }
    ∷ queued_from left (i + 1) seq now f b

enqueue-send :
    (left i seq now : ℕ) (f : DatagramFlow) (b : List ℕ) (m : DatagramMux)
    → length m.send + left ≤ 32
    → (enqueue left i seq now f b m).send ≡ m.send ++ queued_from left i seq now f b
unfolding enqueue
enqueue-send zero i seq now f b m room = sym (append-nil m.send)
enqueue-send (suc left) i seq now f b m room = rw (lt→ltb (length m.send) 32 (omega arith)) (
    enqueue-send left (i + 1) seq now f b _ (omega (arith, length-append m.send (q ∷ [])))
    ∙ append_assoc m.send (q ∷ []) _)
  where
    q : Queued
    q = record {
      flow = f.serial;
      payload = fragment f.id seq i (piece_count b) (piece i b);
      at_time = now;
    }

-- All arrive at one time.
abbrev pub arriving : ℕ → List Queued → List (ℕ × List ℕ)
arriving now [] = []
arriving now (q ∷ qs) = (now, q.payload) ∷ arriving now qs

abbrev in_order : ℕ → ℕ → ℕ → List (ℕ × ℕ)
in_order now zero i = []
in_order now (suc left) i = (now, i) ∷ in_order now left (i + 1)

arriving-queued_from :
    (left i seq sent now : ℕ) (f : DatagramFlow) (b : List ℕ)
    → arriving now (queued_from left i seq sent f b) ≡ datagrams f.id seq b (in_order now left i)
arriving-queued_from zero i seq sent now f b = refl
arriving-queued_from (suc left) i seq sent now f b =
    ap (◌∷◌ (now, fragment f.id seq i (piece_count b) (piece i b)))
      (arriving-queued_from left (i + 1) seq sent now f b)

in_order-Places :
    (now left i : ℕ) (b : List ℕ) → i + left ≤ piece_count b → Places b (in_order now left i)
in_order-Places now zero i b h = tt
in_order-Places now (suc left) i b h =
    (omega arith, in_order-Places now left (i + 1) b (omega arith))

in_order-above : (now left i k : ℕ) → k < i → All (λ (x : ℕ × ℕ). k ≢ x.1) (in_order now left i)
in_order-above now zero i k h = tt
in_order-above now (suc left) i k h = (omega arith, in_order-above now left (i + 1) k (omega arith))

in_order-Distinct : (now left i : ℕ) → Distinct (in_order now left i)
in_order-Distinct now zero i = tt
in_order-Distinct now (suc left) i =
    (in_order-above now left (i + 1) i (omega arith), in_order-Distinct now left (i + 1))

in_order-InTime : (now left i : ℕ) → InTime now (in_order now left i)
in_order-InTime now zero i = tt
in_order-InTime now (suc left) i = (omega arith, in_order-InTime now left (i + 1))

length-in_order : (now left i : ℕ) → length (in_order now left i) ≡ left
length-in_order now zero i = refl
length-in_order now (suc left) i = ap suc (length-in_order now left (i + 1))

accept_all-in_order :
    (now id seq left : ℕ) (b : List ℕ) (g : DatagramFlow)
    → id < 2 ^ 64
    → seq < 2 ^ 32
    → length b ≤ 65507
    → g.done ≡ false
    → length g.recv < 32
    → length g.parts < 8
    → lookup seq g.parts ≡ none
    → left ≡ piece_count b
    → Finished seq b g.recv (accept_all (datagrams id seq b (in_order now left 0)) g)
accept_all-in_order now id seq zero b g hid hseq small o room few new all = absurd (omega arith)
accept_all-in_order now id seq (suc left) b g hid hseq small o room few new all =
    accept_all-datagrams id seq b (now, 0) (in_order now left 1) g hid hseq small o room few new
      (in_order-Places now (suc left) 0 b (omega arith)) (in_order-Distinct now (suc left) 0)
      (in_order-InTime now left 1) (ap suc (length-in_order now left 1) ∙ all)

abbrev numbered : DatagramFlow → DatagramFlow
numbered f = record f { seq = (f.seq + 1) % 2 ^ 32 }

flow_write_open :
    (now : ℕ) (b : List ℕ) (f : DatagramFlow) (m : DatagramMux)
    → f.done ≡ false
    → m.closed ≡ false
    → past f.write_deadline now ≡ false
    → length b ≤ 65507
    → flow_write now b f m ≡ (
      ok (length b),
      numbered f,
      enqueue
          (piece_count b)
          0
          (numbered f).seq
          now
          (numbered f)
          b
          (record m { flows = insert f.id (numbered f) m.flows }),
    )
unfolding flow_write
flow_write_open now b f m o live early small = λ i.
    if either i
    then (err net_closed, f, m)
    else (if early i
        then (err deadline_exceeded, f, m)
        else (if le→ltb 65507 (length b) small i
            then (err (message "UDP payload too large"), f, m)
            else (
              ok (length b),
              numbered f,
              enqueue (piece_count b) 0 (numbered f).seq now (numbered f) b
                  (record m { flows = insert f.id (numbered f) m.flows }),
            )))
  where
    either : (f.done || m.closed) ≡ false
    either = rw (o, live) refl

-- A Write of at most 65507 bytes on an open flow of an open connection, before its deadline and with
-- room in the send queue for all its pieces, reports the whole length; and the datagrams that it
-- adds to the queue, handed in order to an open flow at the other end that has room and is putting
-- together no packet of that number, put exactly the written bytes at the end of that flow's queue.
pub accept_all-flow_write :
    (now later : ℕ) (b : List ℕ) (f g : DatagramFlow) (m : DatagramMux)
    → f.done ≡ false
    → m.closed ≡ false
    → past f.write_deadline now ≡ false
    → length b ≤ 65507
    → length m.send + piece_count b ≤ 32
    → f.id < 2 ^ 64
    → g.done ≡ false
    → length g.recv < 32
    → length g.parts < 8
    → lookup (flow_write now b f m).1.seq g.parts ≡ none
    → ((flow_write now b f m).0 ≡ ok (length b))
      × ((added : List Queued) × ((flow_write now b f m).2.send ≡ m.send ++ added)
          × Finished (flow_write now b f m).1.seq b g.recv (accept_all (arriving later added) g))
accept_all-flow_write now later b f g m o live early small room hid go groom few new =
    let w = flow_write_open now b f m o live early small in
    let n = (numbered f).seq in
    let unseen : lookup n g.parts ≡ none =
      subst (λ (r : Result ℕ × DatagramFlow × DatagramMux). lookup r.1.seq g.parts ≡ none) w new in
    let arrives =
      accept_all-in_order later f.id n (piece_count b) b g hid (omega arith) small go groom few
        unseen refl in
    let added = queued_from (piece_count b) 0 n now (numbered f) b in
    let handed = arriving-queued_from (piece_count b) 0 n now later (numbered f) b in
    let m' : DatagramMux = record m { flows = insert f.id (numbered f) m.flows } in
    (
      ap (λ (r : Result ℕ × DatagramFlow × DatagramMux). r.0) w,
      (
        added,
        ap (λ (r : Result ℕ × DatagramFlow × DatagramMux). r.2.send) w
            ∙ enqueue-send (piece_count b) 0 n now (numbered f) b m' room,
        subst₂ (λ (k : ℕ) (d : List (ℕ × List ℕ)). Finished k b g.recv (accept_all d g))
            (sym (ap (λ (r : Result ℕ × DatagramFlow × DatagramMux). r.1.seq) w)) (sym handed)
            arrives,
      ),
    )

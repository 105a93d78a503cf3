-- ===== src/Gateway/Datagram/Interleaving.antt =====
-- internal/gateway/datagram.go: the multiplexer is in order after any interleaving.
use quic_lab.Common.{
  ℕ, zero, suc, ◌+◌, ◌<◌, ◌≡◌, ap, Bool, ◌||◌, some, List, [], ◌∷◌, ◌++◌, arith, ltb, ltb→lt,
  if_cases, length, length-append, All-append, Result,
}
use quic_lab.Common.Maps.{lookup, length-delete, delete-AllValues, lookup-AllValues}
use quic_lab.Gateway.Datagram.{
  DatagramFlow, Queued, DatagramMux, fragment, piece, piece_count, enqueue, past, flow_write,
  FlowRead, flow_close, set_deadline, set_read_deadline, set_write_deadline, flow_closed,
  connection_closed, timed_out, received,
}
use quic_lab.Gateway.Datagram.Fragments.{length-fragment, length-piece}
use quic_lab.Gateway.Datagram.Invariant.{IsFlow}
use quic_lab.Gateway.Datagram.Steps.{
  MuxStep, Reach, IsSendable, IsMux, put_known, with_drops, register-IsMux, receive-IsMux,
  with_send, sender-IsMux, registers, receives, sends, writes, reads, closes, sets_deadline,
  sets_read_deadline, sets_write_deadline, disconnects, start, then_step,
}

enqueue-IsMux :
    (left i seq now : ℕ) (f : DatagramFlow) (b : List ℕ) (m : DatagramMux)
    → IsMux m
    → IsMux (enqueue left i seq now f b m)
unfolding enqueue
enqueue-IsMux zero i seq now f b m v = v
enqueue-IsMux (suc left) i seq now f b m v =
    if_cases IsMux (ltb (length m.send) 32) _ _
      (λ room. enqueue-IsMux left (i + 1) seq now f b _ (queued (ltb→lt _ _ room)))
      (λ _. with_drops m _ v)
  where
    q : Queued
    q = record {
      flow = f.serial;
      payload = fragment f.id seq i (piece_count b) (piece i b);
      at_time = now;
    }

    queued : length m.send < 32 → IsMux (record m { send = m.send ++ (q ∷ []) })
    queued room =
        with_send m (m.send ++ (q ∷ [])) m.drops (omega (arith, length-append m.send (q ∷ [])))
          (All-append IsSendable m.send (q ∷ []) v.sendable (
            (
              omega (arith, length-fragment f.id seq i (piece_count b) (piece i b)),
              omega
                  (arith, length-fragment f.id seq i (piece_count b) (piece i b), length-piece i b),
            ),
            tt,
          ))
          v

same-IsFlow :
    (f : DatagramFlow) (n d w c : ℕ)
    → IsFlow f
    → IsFlow (record f { seq = n; read_deadline = d; write_deadline = w; changed = c })
same-IsFlow f n d w c v = record {
  queue_bounded = v.queue_bounded;
  packets_bounded = v.packets_bounded;
  parts_bounded = v.parts_bounded;
  parts_pending = v.parts_pending;
}

flow_write-IsMux :
    (now : ℕ) (b : List ℕ) (f : DatagramFlow) (m : DatagramMux)
    → lookup f.id m.flows ≡ some f
    → IsMux m
    → IsMux (flow_write now b f m).2
unfolding flow_write
flow_write-IsMux now b f m known v =
    if_cases P (f.done || m.closed) _ _ (λ _. v)
      λ _.
        if_cases P (past f.write_deadline now) _ _ (λ _. v)
          λ _.
            if_cases P (ltb 65507 (length b)) _ _ (λ _. v)
              λ _. enqueue-IsMux (piece_count b) 0 _ now _ b _ (
                put_known f.id f _ m known
                  (same-IsFlow f _ f.read_deadline f.write_deadline f.changed
                    (lookup-AllValues IsFlow f.id m.flows f known v.flows_valid))
                  v)
  where
    P : Result ℕ × DatagramFlow × DatagramMux → Type 0
    P r = IsMux r.2

read-IsFlow :
    {closed : Bool} {now n : ℕ} {f : DatagramFlow} {r : Result (List ℕ)} {f' : DatagramFlow}
    → FlowRead closed now n f r f'
    → IsFlow f
    → IsFlow f'
read-IsFlow (flow_closed h k) v = v
read-IsFlow (connection_closed h k) v = v
read-IsFlow (timed_out h) v = v
read-IsFlow {f = f} (received p rest h e) v = record {
  queue_bounded = omega (arith, ap length e, v.queue_bounded);
  packets_bounded = (rw e at v.packets_bounded).1;
  parts_bounded = v.parts_bounded;
  parts_pending = v.parts_pending;
}

flow_close-IsMux : (f : DatagramFlow) (m : DatagramMux) → IsMux m → IsMux (flow_close f m).1
unfolding flow_close
flow_close-IsMux f m v =
    if_cases (λ (r : DatagramFlow × DatagramMux). IsMux r.1) f.done _ _ (λ _. v)
      λ _. record {
        flows_bounded = omega (arith, length-delete f.id m.flows, v.flows_bounded);
        flows_valid = delete-AllValues IsFlow f.id m.flows v.flows_valid;
        send_bounded = v.send_bounded;
        sendable = v.sendable;
      }

-- Every step keeps the multiplexer in order.
step-IsMux : {m n : DatagramMux} → MuxStep m n → IsMux m → IsMux n
unfolding set_deadline set_read_deadline set_write_deadline
step-IsMux {m = m} (registers id) v = register-IsMux id m v
step-IsMux {m = m} (receives now b) v = receive-IsMux now b m v
step-IsMux {m = m} (sends now taken) v = sender-IsMux now taken m v
step-IsMux {m = m} (writes now b f known) v = flow_write-IsMux now b f m known v
step-IsMux {m = m} (reads now n f f' r known rd) v =
    put_known f.id f f' m known
      (read-IsFlow rd (lookup-AllValues IsFlow f.id m.flows f known v.flows_valid)) v
step-IsMux {m = m} (closes f known) v = flow_close-IsMux f m v
step-IsMux {m = m} (sets_deadline t f known) v =
    put_known f.id f _ m known
      (same-IsFlow f f.seq t t _ (lookup-AllValues IsFlow f.id m.flows f known v.flows_valid)) v
step-IsMux {m = m} (sets_read_deadline t f known) v =
    put_known f.id f _ m known
      (same-IsFlow f f.seq t f.write_deadline _
        (lookup-AllValues IsFlow f.id m.flows f known v.flows_valid))
      v
step-IsMux {m = m} (sets_write_deadline t f known) v =
    put_known f.id f _ m known
      (same-IsFlow f f.seq f.read_deadline t f.changed
        (lookup-AllValues IsFlow f.id m.flows f known v.flows_valid))
      v
step-IsMux disconnects v = record {
  flows_bounded = v.flows_bounded;
  flows_valid = v.flows_valid;
  send_bounded = v.send_bounded;
  sendable = v.sendable;
}

-- In every state that any interleaving of the two loops and of the flows' users can reach from a
-- multiplexer that is in order, at most 128 flows are open, each of them in order as `IsFlow` says,
-- at most 32 datagrams wait to be sent, and each is of a length that the other side lets through.
pub Reach-IsMux : {m n : DatagramMux} → Reach m n → IsMux m → IsMux n
Reach-IsMux start v = v
Reach-IsMux (then_step r st) v = step-IsMux st (Reach-IsMux r v)

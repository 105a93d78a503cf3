-- ===== src/Gateway/Datagram/Steps.antt =====
-- The goroutines of internal/gateway/datagram.go as interleaved steps on one multiplexer: the two
-- loops, and the calls of the flows' users. A call is on an object of the table.
use quic_lab.Common.{
  ℕ, ◌+◌, ◌-◌, ◌≤◌, ◌≡◌, inl, inr, Bool, true, false, not, ◌||◌, Option, some, List, [], ◌∷◌, arith,
  ltb, leb, Option-cases, is_some, if_cases, length, All, Result,
}
use quic_lab.Common.Maps.{
  lookup, insert, length-insert, AllValues, insert-AllValues, lookup-AllValues,
}
use quic_lab.Common.Bytes.{be_at}
use quic_lab.Gateway.Datagram.{
  DatagramFlow, accept, Queued, DatagramMux, new_flow, register, receive, is_live, send_next,
  sender, flow_write, FlowRead, flow_close, set_deadline, set_read_deadline, set_write_deadline,
}
use quic_lab.Gateway.Datagram.Invariant.{IsFlow, accept-IsFlow}

abbrev pub put_back : DatagramFlow → DatagramMux → DatagramMux
put_back f m = record m { flows = insert f.id f m.flows }

pub data MuxStep (m : DatagramMux) : DatagramMux → Type 0 where
  registers : (id : ℕ) → MuxStep m (register id m).1
  receives : (now : ℕ) (b : List ℕ) → MuxStep m (receive now b m)
  sends : (now : ℕ) (taken : Bool) → MuxStep m (sender now taken m).0
  writes :
      (now : ℕ) (b : List ℕ) (f : DatagramFlow)
      → lookup f.id m.flows ≡ some f
      → MuxStep m (flow_write now b f m).2
  reads :
      (now n : ℕ) (f f' : DatagramFlow) (r : Result (List ℕ))
      → lookup f.id m.flows ≡ some f
      → FlowRead m.closed now n f r f'
      → MuxStep m (record m { flows = insert f.id f' m.flows })
  closes : (f : DatagramFlow) → lookup f.id m.flows ≡ some f → MuxStep m (flow_close f m).1
  sets_deadline :
      (t : ℕ) (f : DatagramFlow)
      → lookup f.id m.flows ≡ some f
      → MuxStep m (put_back (set_deadline t f) m)
  sets_read_deadline :
      (t : ℕ) (f : DatagramFlow)
      → lookup f.id m.flows ≡ some f
      → MuxStep m (put_back (set_read_deadline t f) m)
  sets_write_deadline :
      (t : ℕ) (f : DatagramFlow)
      → lookup f.id m.flows ≡ some f
      → MuxStep m (put_back (set_write_deadline t f) m)
  disconnects : MuxStep m (record m { closed = true })

pub data Reach (m : DatagramMux) : DatagramMux → Type 0 where
  start : Reach m m
  then_step : {n k : DatagramMux} → Reach m n → MuxStep n k → Reach m k

-- A length that the other side's `receive` lets through.
abbrev pub IsSendable : Queued → Type 0
IsSendable q = (16 ≤ length q.payload) × (length q.payload ≤ 1016)

pub record IsMux (m : DatagramMux) : Type 0 where
  pub flows_bounded : length m.flows ≤ 128
  pub flows_valid : AllValues IsFlow m.flows
  pub send_bounded : length m.send ≤ 32
  pub sendable : All IsSendable m.send

abbrev pub new_mux : DatagramMux
new_mux = record { closed = false; flows = []; next_serial = 0; send = []; drops = 0 }

pub new_mux-IsMux : IsMux new_mux
new_mux-IsMux = record {
  flows_bounded = omega arith;
  flows_valid = tt;
  send_bounded = omega arith;
  sendable = tt;
}

-- Writing a flow that is there does not make the table longer.
pub put_known :
    (k : ℕ) (f g : DatagramFlow) (m : DatagramMux)
    → lookup k m.flows ≡ some f
    → IsFlow g
    → IsMux m
    → IsMux (record m { flows = insert k g m.flows })
put_known k f g m known valid v = record {
  flows_bounded = ground (arith, length-insert k g m.flows);
  flows_valid = insert-AllValues IsFlow k g m.flows valid v.flows_valid;
  send_bounded = v.send_bounded;
  sendable = v.sendable;
}

pub with_drops : (m : DatagramMux) (n : ℕ) → IsMux m → IsMux (record m { drops = n })
with_drops m n v = record {
  flows_bounded = v.flows_bounded;
  flows_valid = v.flows_valid;
  send_bounded = v.send_bounded;
  sendable = v.sendable;
}

pub register-IsMux : (id : ℕ) (m : DatagramMux) → IsMux m → IsMux (register id m).1
unfolding register
register-IsMux id m v =
    if_cases (λ (r : Result DatagramFlow × DatagramMux). IsMux r.1) m.closed _ _ (λ _. v)
      λ _.
        if_cases (λ (r : Result DatagramFlow × DatagramMux). IsMux r.1) (leb 128 (length m.flows)) _
          _ (λ _. v)
          λ room.
            if_cases (λ (r : Result DatagramFlow × DatagramMux). IsMux r.1)
              (is_some (lookup id m.flows)) _ _ (λ _. v)
              λ new. record {
                flows_bounded =
                    ground (arith, length-insert id (new_flow id m.next_serial) m.flows);
                flows_valid =
                    insert-AllValues IsFlow id (new_flow id m.next_serial) m.flows fresh
                      v.flows_valid;
                send_bounded = v.send_bounded;
                sendable = v.sendable;
              }
  where
    fresh : IsFlow (new_flow id m.next_serial)
    fresh = record {
      queue_bounded = omega arith;
      packets_bounded = tt;
      parts_bounded = omega arith;
      parts_pending = tt;
    }

pub receive-IsMux : (now : ℕ) (b : List ℕ) (m : DatagramMux) → IsMux m → IsMux (receive now b m)
unfolding receive
receive-IsMux now b m v =
    if_cases IsMux (ltb (length b) 16 || ltb 1016 (length b)) _ _ (λ _. with_drops m _ v)
      λ fits. elim (Option-cases (lookup (be_at 8 0 b) m.flows)) [
        | inl e ↦ rw (e, receive) (with_drops m _ v)
        | inr (f, e) ↦ rw e (
            with_drops _ _ (
              put_known (be_at 8 0 b) f (accept now b f).0 m e
                (accept-IsFlow now b f (ground arith)
                  (lookup-AllValues IsFlow (be_at 8 0 b) m.flows f e v.flows_valid))
                v))
      ]

pub with_send :
    (m : DatagramMux) (qs : List Queued) (n : ℕ)
    → length qs ≤ 32
    → All IsSendable qs
    → IsMux m
    → IsMux (record m { send = qs; drops = n })
with_send m qs n few ok_all v = record {
  flows_bounded = v.flows_bounded;
  flows_valid = v.flows_valid;
  send_bounded = few;
  sendable = ok_all;
}

send_next-IsMux :
    (now : ℕ) (taken : Bool) (qs : List Queued) (m : DatagramMux)
    → length qs ≤ 32
    → All IsSendable qs
    → IsMux m
    → IsMux (send_next now taken qs m).0
send_next-IsMux now taken [] m few sendable v = v
send_next-IsMux now taken (q ∷ qs) m few sendable v =
    if_cases P (not (is_live q.flow m.flows)) _ _ (λ _. popped m.drops)
      λ _.
        if_cases P (ltb 200_000_000 (now - q.at_time)) _ _ (λ _. popped (m.drops + 1))
          λ _. if_cases P taken _ _ (λ _. popped m.drops) (λ _. popped (m.drops + 1))
  where
    P : DatagramMux × Option (List ℕ) → Type 0
    P r = IsMux r.0

    popped : (n : ℕ) → IsMux (record m { send = qs; drops = n })
    popped n = with_send m qs n (omega arith) sendable.1 v

pub sender-IsMux :
    (now : ℕ) (taken : Bool) (m : DatagramMux) → IsMux m → IsMux (sender now taken m).0
unfolding sender
sender-IsMux now taken m v =
    if_cases (λ (r : DatagramMux × Option (List ℕ)). IsMux r.0) m.closed _ _ (λ _. v)
      (λ _. send_next-IsMux now taken m.send m v.send_bounded v.sendable v)

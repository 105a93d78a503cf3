-- ===== src/Examples/Datagrams.antt =====
-- internal/gateway/datagram.go at concrete inputs.
use quic_lab.Common.{ℕ, ◌≡◌, refl, List, [], ◌∷◌, ◌++◌, arith, drop, replicate, ok}
use quic_lab.Common.Bytes.{be_at}
use quic_lab.Common.Maps.{lookup, insert, delete, keep}
use quic_lab.Gateway.Datagram.{
  DatagramFlow, deliver, malformed, join, settle, add_piece, collect, expire, accept_fragment,
  accept, accept_all, Queued, DatagramMux, new_flow, register, receive, fragment, flow_write,
}
use quic_lab.Gateway.Datagram.Fragments.{fragment_fields, length-fragment}
use quic_lab.Gateway.Datagram.Reassembly.{Finished, datagrams, accept_all-datagrams}
use quic_lab.Gateway.Datagram.Invariant.{IsFlow, accept-IsFlow}
use quic_lab.Gateway.Datagram.Interleaving.{Reach-IsMux}
use quic_lab.Gateway.Datagram.Steps.{
  IsMux, new_mux, new_mux-IsMux, registers, receives, start, then_step,
}
use quic_lab.Gateway.Datagram.EndToEnd.{arriving, accept_all-flow_write}

-- Two pieces, the second of one byte.
abbrev packet : List ℕ
packet = replicate 1000 7 ++ (9 ∷ [])

abbrev sending : DatagramFlow
sending = new_flow 4 0

abbrev sending_mux : DatagramMux
sending_mux = record new_mux { flows = (4, sending) ∷ []; next_serial = 1 }

abbrev receiving : DatagramFlow
receiving = new_flow 4 6

-- One piece waits for the other, and both in the wrong order make the packet.
half_way : (accept 0 (fragment 4 1 1 2 (9 ∷ [])) receiving).0.recv ≡ []
unfolding accept fragment be_at accept_fragment malformed expire collect add_piece settle insert
    lookup keep
half_way = refl

wrong_order :
    (accept_all
      ((0, fragment 4 1 1 2 (9 ∷ [])) ∷ (5, fragment 4 1 0 2 (replicate 1000 7)) ∷ [])
      receiving).recv
    ≡ packet ∷ []
unfolding accept_all accept fragment be_at accept_fragment malformed expire collect add_piece settle
    insert lookup keep deliver delete join
wrong_order = refl

accept_all-flow_write_example :
    ((flow_write 5 packet sending sending_mux).0 ≡ ok 1001)
    × ((added : List Queued) × ((flow_write 5 packet sending sending_mux).2.send ≡ added)
        × Finished
            (flow_write 5 packet sending sending_mux).1.seq
            packet
            []
            (accept_all (arriving 8 added) receiving))
unfolding lookup
accept_all-flow_write_example =
    accept_all-flow_write 5 8 packet sending receiving sending_mux refl refl refl (omega arith)
      (omega arith) (omega arith) refl (omega arith) (omega arith) refl

accept_all-datagrams_example :
    Finished 1 packet [] (accept_all (datagrams 4 1 packet ((100, 1) ∷ (300, 0) ∷ [])) receiving)
unfolding lookup
accept_all-datagrams_example =
    accept_all-datagrams 4 1 packet (100, 1) ((300, 0) ∷ []) receiving (omega arith) (omega arith)
      (omega arith) refl (omega arith) (omega arith) refl (omega arith)
      ((omega arith, tt), (tt, tt)) (omega arith) refl

empty-IsFlow : IsFlow receiving
empty-IsFlow = record {
  queue_bounded = omega arith;
  packets_bounded = tt;
  parts_bounded = omega arith;
  parts_pending = tt;
}

accept-IsFlow_example : IsFlow (accept 0 (fragment 4 1 1 2 (9 ∷ [])) receiving).0
accept-IsFlow_example =
    accept-IsFlow 0 (fragment 4 1 1 2 (9 ∷ [])) receiving
      (omega (arith, length-fragment 4 1 1 2 (9 ∷ []))) empty-IsFlow

Reach-IsMux_example : IsMux (receive 3 (fragment 4 1 0 1 (9 ∷ [])) (register 4 new_mux).1)
Reach-IsMux_example =
    Reach-IsMux (then_step (then_step start (registers 4)) (receives 3 (fragment 4 1 0 1 (9 ∷ []))))
      new_mux-IsMux

reads_fields :
    (be_at 8 0 (fragment 4 1 2 3 (9 ∷ [])) ≡ 4)
    × (be_at 4 8 (fragment 4 1 2 3 (9 ∷ [])) ≡ 1)
    × (be_at 2 12 (fragment 4 1 2 3 (9 ∷ [])) ≡ 2)
    × (be_at 2 14 (fragment 4 1 2 3 (9 ∷ [])) ≡ 3)
    × (drop 16 (fragment 4 1 2 3 (9 ∷ [])) ≡ 9 ∷ [])
reads_fields =
    fragment_fields 4 1 2 3 (9 ∷ []) (omega arith) (omega arith) (omega arith) (omega arith)

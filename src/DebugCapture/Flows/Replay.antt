-- ===== src/DebugCapture/Flows/Replay.antt =====
-- internal/debugcapture/user.go: what record sends does not depend on where it is sent.
use quic_lab.Common.{
  ℕ, zero, suc, ◌≡◌, refl, sym, ap, ◌∙◌, Bool, true, false, not, Option, none, some, List, [], ◌∷◌,
  length, take, drop,
}
use quic_lab.DebugCapture.Packets.{FlowState}
use quic_lab.DebugCapture.Flows.{
  advance, first_state, send_chunks, handshake, send_data, record_data,
}
use quic_lab.DebugCapture.Flows.Conversation.{Segment, log}

module _ {ℓ} {S : Type ℓ} (send : FlowState → Bool → List ℕ → ℕ → S → S) where
  -- The segments of a log, sent one after the other.
  unfoldable pub replay : List Segment → S → S
  replay [] s = s
  replay (g ∷ l) s = replay l (send g.state g.is_up g.payload g.flags s)

  abbrev pub replayed : S → FlowState × List Segment → FlowState × S
  replayed s (st, l) = (st, replay l s)

  replay-log :
      (st : FlowState) (up : Bool) (p : List ℕ) (flags : ℕ) (l : List Segment) (s : S)
      → replay (log st up p flags l) s ≡ send st up p flags (replay l s)
  unfolding replay
  replay-log st up p flags [] s = refl
  replay-log st up p flags (g ∷ l) s =
      replay-log st up p flags l (send g.state g.is_up g.payload g.flags s)

  replay_round :
      (st next : FlowState) (up : Bool) (p : List ℕ) (l : List Segment) (s : S)
      → send next (not up) [] 16 (send st up p 24 (replay l s))
        ≡ replay (log next (not up) [] 16 (log st up p 24 l)) s
  replay_round st next up p l s =
      rw (replay-log next (not up) [] 16 (log st up p 24 l) s, replay-log st up p 24 l s) refl

  chunks_replay :
      (fuel : ℕ) (up : Bool) (p : List ℕ) (st : FlowState) (l : List Segment) (s : S)
      → send_chunks send fuel up p st (replay l s) ≡ replayed s (send_chunks log fuel up p st l)
  unfolding send_chunks
  chunks_replay zero up p st l s = refl
  chunks_replay (suc fuel) up [] st l s = refl
  chunks_replay (suc fuel) up (x ∷ xs) st l s =
      let p = x ∷ xs in
      let next = advance up (length (take 1400 p)) st in
      ap (λ q. send_chunks send fuel up (drop 1400 p) next q)
        (replay_round st next up (take 1400 p) l s)
      ∙ chunks_replay fuel up (drop 1400 p) next
          (log next (not up) [] 16 (log st up (take 1400 p) 24 l)) s

  data_replay :
      (udp up : Bool) (p : List ℕ) (st : FlowState) (l : List Segment) (s : S)
      → send_data send udp up p (st, replay l s) ≡ replayed s (send_data log udp up p (st, l))
  data_replay true up p st l s = ap (λ t. (st, t)) (sym (replay-log st up p 0 l s))
  data_replay false up p st l s = chunks_replay (length p) up p st l s

  -- Whatever record sends its segments to, it keeps the same state of the flow and sends the same
  -- segments in the same order: the result is that of sending those it would log.
  pub record_data-replay :
      (udp up : Bool) (p : List ℕ) (found : Option FlowState) (s : S)
      → record_data send udp up p found s ≡ replayed s (record_data log udp up p found [])
  unfolding record_data replay handshake
  record_data-replay udp up p (some st) s = data_replay udp up p st [] s
  record_data-replay true up p none s = data_replay true up p first_state [] s
  record_data-replay false up p none s =
      data_replay false up p (handshake log []).0 (handshake log []).1 s

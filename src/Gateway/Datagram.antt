-- ===== src/Gateway/Datagram.antt =====
-- internal/gateway/datagram.go: UDP flows over QUIC datagrams.
-- A time is a number of nanoseconds, and 0 is the zero time of Go. A channel is the list of what it
-- holds, the oldest first. `serial` tells the flow objects apart, as their addresses do. Each
-- function returns how many drops it added to the counter, or the new multiplexer.
pub mod Fragments
pub mod Assemblies
pub mod Pieces
pub mod Reassembly
pub mod Invariant
pub mod Steps
pub mod Interleaving
pub mod EndToEnd
use quic_lab.Common.{
  ℕ, zero, suc, ◌+◌, ◌-◌, ◌*◌, ◌/◌, ◌%◌, ◌^◌, ◌≡◌, Bool, true, false, not, ◌&&◌, ◌||◌, Option, none,
  some, List, [], ◌∷◌, ◌++◌, ltb, leb, ◌==◌, if◌then◌else◌, is_some, length, get_elem?, set, take,
  drop, replicate, Result, net_closed, deadline_exceeded, message, ok, err,
}
use quic_lab.Common.Bytes.{put_be, be_at}
use quic_lab.Common.Maps.{lookup, insert, delete, keep}
use Prim.Native.Nat.{min, max}

abbrev pub datagram_chunk : ℕ
datagram_chunk = 1000

abbrev pub max_udp : ℕ
max_udp = 65507

abbrev pub max_flows : ℕ
max_flows = 128

abbrev pub fragment_lifetime : ℕ
fragment_lifetime = 500_000_000

abbrev pub queue_size : ℕ
queue_size = 32

pub record Assembly : Type 0 where
  pub at_time : ℕ
  pub pieces : List (Option (List ℕ))
  pub count : ℕ
  pub size : ℕ

pub record DatagramFlow : Type 0 where
  pub id : ℕ
  pub serial : ℕ
  pub seq : ℕ  -- uint32
  pub recv : List (List ℕ)
  pub done : Bool
  pub control_closed : Bool
  pub read_deadline : ℕ
  pub write_deadline : ℕ
  pub changed : ℕ  -- how often the channel was replaced
  pub parts : List (ℕ × Assembly)

-- f.deliver: a full queue drops the packet.
unfoldable pub deliver : List ℕ → DatagramFlow → DatagramFlow × ℕ
deliver b f =
    if ltb (length f.recv) queue_size then (record f { recv = f.recv ++ (b ∷ []) }, 0) else (f, 1)

-- The test at the head of `accept`.
unfoldable pub malformed : ℕ → ℕ → List ℕ → Bool
malformed index total payload =
    ltb total 1
    || ltb 66 total
    || leb total index
    || (ltb index (total - 1) && not (length payload == datagram_chunk))
    || (ltb 1 total && index == total - 1 && length payload == 0)

abbrev pub is_fresh : ℕ → Assembly → Bool
is_fresh now a = leb (now - a.at_time) fragment_lifetime

-- The bytes of the pieces that are there, in order.
unfoldable pub join : List (Option (List ℕ)) → List ℕ
join [] = []
join (none ∷ ps) = join ps
join (some p ∷ ps) = p ++ join ps

abbrev pub add_drop : ℕ → DatagramFlow × ℕ → DatagramFlow × ℕ
add_drop n (f, m) = (f, n + m)

-- The end of `accept`: `a` has the new piece.
unfoldable pub settle : ℕ → ℕ → Assembly → DatagramFlow → DatagramFlow × ℕ
settle seq total a f =
    if ltb max_udp a.size
    then (record f { parts = delete seq f.parts }, 1)
    else (if a.count == total
        then deliver (join a.pieces) (record f { parts = delete seq f.parts })
        else (record f { parts = insert seq a f.parts }, 0))

abbrev pub with_piece : ℕ → List ℕ → Assembly → Assembly
with_piece index payload a = record a {
  pieces = set a.pieces index (some payload);
  count = a.count + 1;
  size = a.size + length payload;
}

-- `a.pieces[index]`, which is there and empty, holds a piece, or is out of range.
abbrev pub is_missing : Option (Option (List ℕ)) → Bool
is_missing (some none) = true
is_missing other = false

unfoldable pub add_piece : ℕ → ℕ → ℕ → List ℕ → Assembly → DatagramFlow → DatagramFlow × ℕ
add_piece seq index total payload a f =
    if not (length a.pieces == total)
    then (f, 1)
    else (if is_missing (get_elem? a.pieces index)
        then settle seq total (with_piece index payload a) f
        else (f, 0))

abbrev pub new_assembly : ℕ → ℕ → Assembly
new_assembly now total = record {
  at_time = now;
  pieces = replicate total none;
  count = 0;
  size = 0;
}

-- Find the packet's assembly or begin one; at most eight packets are put together at a time.
unfoldable pub collect : ℕ → ℕ → ℕ → ℕ → List ℕ → DatagramFlow → DatagramFlow × ℕ
collect now seq index total payload f = elim (lookup seq f.parts) [
  | some a ↦ add_piece seq index total payload a f
  | none ↦
      if leb 8 (length f.parts)
      then (f, 1)
      else add_piece seq index total payload (new_assembly now total)
          (record f { parts = insert seq (new_assembly now total) f.parts })
]

-- The loop that forgets the packets whose first piece is too old; each is a drop.
unfoldable pub expire : ℕ → DatagramFlow → DatagramFlow × ℕ
expire now f =
    let kept = keep (is_fresh now) f.parts in
    (record f { parts = kept }, length f.parts - length kept)

unfoldable pub accept_fragment : ℕ → ℕ → ℕ → ℕ → List ℕ → DatagramFlow → DatagramFlow × ℕ
accept_fragment now seq index total payload f =
    if malformed index total payload
    then (f, 1)
    else (if total == 1
        then deliver payload f
        else (let (f', expired) = expire now f in
            add_drop expired (collect now seq index total payload f')))

-- DatagramFlow.accept on a datagram that `receive` let through.
unfoldable pub accept : ℕ → List ℕ → DatagramFlow → DatagramFlow × ℕ
accept now b f =
    if f.done
    then (f, 0)
    else accept_fragment now (be_at 4 8 b) (be_at 2 12 b) (be_at 2 14 b) (drop 16 b) f

-- The datagrams of one flow, as the loop of `receive` hands them over, each with its time.
unfoldable pub accept_all : List (ℕ × List ℕ) → DatagramFlow → DatagramFlow
accept_all [] f = f
accept_all ((now, b) ∷ rest) f = accept_all rest (accept now b f).0

pub record Queued : Type 0 where
  pub flow : ℕ  -- the serial of the flow object
  pub payload : List ℕ
  pub at_time : ℕ

pub record DatagramMux : Type 0 where
  pub closed : Bool  -- the connection's context is done
  pub flows : List (ℕ × DatagramFlow)
  pub next_serial : ℕ
  pub send : List Queued
  pub drops : ℕ

abbrev pub new_flow : ℕ → ℕ → DatagramFlow
new_flow id serial = record {
  id = id;
  serial = serial;
  seq = 0;
  recv = [];
  done = false;
  control_closed = false;
  read_deadline = 0;
  write_deadline = 0;
  changed = 0;
  parts = [];
}

unfoldable pub register : ℕ → DatagramMux → Result DatagramFlow × DatagramMux
register id m =
    if m.closed
    then (err net_closed, m)
    else (if leb max_flows (length m.flows)
        then (err (message "UDP flow limit"), m)
        else (if is_some (lookup id m.flows) then (err (message "duplicate UDP context"), m) else (
          ok (new_flow id m.next_serial),
          record m {
            flows = insert id (new_flow id m.next_serial) m.flows;
            next_serial = m.next_serial + 1;
          },
        )))

abbrev pub put_flow : ℕ → DatagramMux → DatagramFlow × ℕ → DatagramMux
put_flow id m (f, dropped) = record m { flows = insert id f m.flows; drops = m.drops + dropped }

-- One round of the loop of `receive`.
unfoldable pub receive : ℕ → List ℕ → DatagramMux → DatagramMux
receive now b m =
    if ltb (length b) 16 || ltb (16 + datagram_chunk) (length b)
    then record m { drops = m.drops + 1 }
    else elim (lookup (be_at 8 0 b) m.flows) [
      | none ↦ record m { drops = m.drops + 1 }
      | some f ↦ put_flow (be_at 8 0 b) m (accept now b f)
    ]

-- A flow object that Close has not taken out of the table.
unfoldable pub is_live : ℕ → List (ℕ × DatagramFlow) → Bool
is_live serial [] = false
is_live serial ((id, f) ∷ fs) = (f.serial == serial && not f.done) || is_live serial fs

abbrev pub send_next : ℕ → Bool → List Queued → DatagramMux → DatagramMux × Option (List ℕ)
send_next now sends [] m = (m, none)
send_next now sends (q ∷ qs) m =
    let m' : DatagramMux = record m { send = qs } in
    if not (is_live q.flow m.flows)
    then (m', none)
    else (if ltb 200_000_000 (now - q.at_time)
        then (record m { send = qs; drops = m.drops + 1 }, none)
        else (if sends
            then (m', some q.payload)
            else (record m { send = qs; drops = m.drops + 1 }, none)))

-- One round of the loop of `sender`; `sends` is whether SendDatagram takes the payload.
unfoldable pub sender : ℕ → Bool → DatagramMux → DatagramMux × Option (List ℕ)
unfolding is_live
sender now sends m = if m.closed then (m, none) else send_next now sends m.send m

-- The datagram of one piece: the flow's id, the packet's number, the piece's place, the bytes.
unfoldable pub fragment : ℕ → ℕ → ℕ → ℕ → List ℕ → List ℕ
unfolding put_be
fragment id seq index total payload =
    put_be 8 id
    ++ (put_be 4 seq ++ (put_be 2 (index % 65536) ++ (put_be 2 (total % 65536) ++ payload)))

-- b[start:end] for piece `i`.
abbrev pub piece : ℕ → List ℕ → List ℕ
piece i b =
    take (min (length b) (i * datagram_chunk + datagram_chunk) - i * datagram_chunk)
      (drop (i * datagram_chunk) b)

abbrev pub piece_count : List ℕ → ℕ
piece_count b = max 1 ((length b + datagram_chunk - 1) / datagram_chunk)

-- The loop of Write: `left` pieces are still to be queued, the next is piece `i`; a full queue ends it.
unfoldable pub enqueue : ℕ → ℕ → ℕ → ℕ → DatagramFlow → List ℕ → DatagramMux → DatagramMux
enqueue zero i seq now f b m = m
enqueue (suc left) i seq now f b m =
    let q : Queued = record {
      flow = f.serial;
      payload = fragment f.id seq i (piece_count b) (piece i b);
      at_time = now;
    } in
    let more = enqueue left (i + 1) seq now f b (record m { send = m.send ++ (q ∷ []) }) in
    if ltb (length m.send) queue_size then more else record m { drops = m.drops + 1 }

abbrev pub past : ℕ → ℕ → Bool
past deadline now = not (deadline == 0) && leb deadline now

-- DatagramFlow.Write on an object of the table: the result, the flow with its next packet number,
-- the multiplexer.
unfoldable pub flow_write :
    ℕ → List ℕ → DatagramFlow → DatagramMux → Result ℕ × DatagramFlow × DatagramMux
unfolding enqueue
flow_write now b f m =
    if f.done || m.closed
    then (err net_closed, f, m)
    else (if past f.write_deadline now
        then (err deadline_exceeded, f, m)
        else (if ltb max_udp (length b)
            then (err (message "UDP payload too large"), f, m)
            else (let f' : DatagramFlow = record f { seq = (f.seq + 1) % 2 ^ 32 } in
                (
                  ok (length b),
                  f',
                  enqueue (piece_count b) 0 f'.seq now f' b
                      (record m { flows = insert f.id f' m.flows }),
                ))))

-- The ways in which a Read into a buffer of `n` bytes that starts at `now` may end. The `select`
-- takes any case that is ready, and a deadline may also pass while it waits.
pub data FlowRead (closed : Bool) (now n : ℕ) (f : DatagramFlow)
    : Result (List ℕ) → DatagramFlow → Type 0 where
  flow_closed :
      past f.read_deadline now ≡ false → f.done ≡ true → FlowRead closed now n f (err net_closed) f
  connection_closed :
      past f.read_deadline now ≡ false → closed ≡ true → FlowRead closed now n f (err net_closed) f
  timed_out : (f.read_deadline == 0) ≡ false → FlowRead closed now n f (err deadline_exceeded) f
  received :
      (p : List ℕ) (rest : List (List ℕ))
      → past f.read_deadline now ≡ false
      → f.recv ≡ p ∷ rest
      → FlowRead closed now n f (ok (take n p)) (record f { recv = rest })

-- DatagramFlow.Close: only the first call does anything.
unfoldable pub flow_close : DatagramFlow → DatagramMux → DatagramFlow × DatagramMux
flow_close f m =
    if f.done
    then (f, m)
    else (record f { done = true; control_closed = true }, record m { flows = delete f.id m.flows })

unfoldable pub set_deadline : ℕ → DatagramFlow → DatagramFlow
set_deadline t f = record f { read_deadline = t; write_deadline = t; changed = f.changed + 1 }

unfoldable pub set_read_deadline : ℕ → DatagramFlow → DatagramFlow
set_read_deadline t f = record f { read_deadline = t; changed = f.changed + 1 }

unfoldable pub set_write_deadline : ℕ → DatagramFlow → DatagramFlow
set_write_deadline t f = record f { write_deadline = t }

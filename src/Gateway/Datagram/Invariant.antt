-- ===== src/Gateway/Datagram/Invariant.antt =====
-- What holds of the flows and of the multiplexer between two operations
-- (internal/gateway/datagram.go).
use quic_lab.Common.{
  ℕ, ◌≤◌, ◌<◌, ◌≡◌, refl, sym, ap, ◌∙◌, inl, inr, true, false, Option, none, some, List, [], ◌∷◌,
  arith, ltb, leb, ◌==◌, ltb→lt, ==_iff, ==_refl, Bool-cases, Option-cases, is_some, if_cases,
  length, get_elem?, drop, All, length-append, length-drop, length-set, length-replicate,
  All-append,
}
use quic_lab.Common.Bytes.{be_at}
use quic_lab.Common.Maps.{
  lookup, insert, delete, keep, lookup-insert, length-insert, length-delete, length-keep, AllValues,
  insert-AllValues, delete-AllValues, keep-AllValues, lookup-AllValues,
}
use quic_lab.Gateway.Datagram.{
  Assembly, DatagramFlow, deliver, malformed, is_fresh, join, settle, with_piece, is_missing,
  add_piece, new_assembly, collect, expire, accept_fragment, accept,
}
use quic_lab.Gateway.Datagram.Assemblies.{
  filled, filled-replicate, join-replicate, filled-set, length-join-set, filled-le-length,
}

abbrev pub IsCounted : Assembly → Type 0
IsCounted a = (a.count ≡ filled a.pieces) × (a.size ≡ length (join a.pieces))

pub record IsPending (a : Assembly) : Type 0 where
  pub counted : a.count ≡ filled a.pieces
  pub sized : a.size ≡ length (join a.pieces)
  pub bounded : a.size ≤ 65507
  pub incomplete : a.count < length a.pieces

pub record IsFlow (f : DatagramFlow) : Type 0 where
  pub queue_bounded : length f.recv ≤ 32
  pub packets_bounded : All (λ p. length p ≤ 65507) f.recv
  pub parts_bounded : length f.parts ≤ 8
  pub parts_pending : AllValues IsPending f.parts

deliver-IsFlow :
    (p : List ℕ) (f : DatagramFlow) → length p ≤ 65507 → IsFlow f → IsFlow (deliver p f).0
unfolding deliver
deliver-IsFlow p f h v = elim (Bool-cases (ltb (length f.recv) 32)) [
  | inl e ↦ rw e (record {
    queue_bounded = omega (arith, length-append f.recv (p ∷ []), ltb→lt _ _ e);
    packets_bounded = All-append (λ q. length q ≤ 65507) f.recv (p ∷ []) v.packets_bounded (h, tt);
    parts_bounded = v.parts_bounded;
    parts_pending = v.parts_pending;
  })
  | inr e ↦ rw e v
]

with_parts :
    (f : DatagramFlow) (parts : List (ℕ × Assembly))
    → IsFlow f
    → length parts ≤ 8
    → AllValues IsPending parts
    → IsFlow (record f { parts = parts })
with_parts f parts v few pending = record {
  queue_bounded = v.queue_bounded;
  packets_bounded = v.packets_bounded;
  parts_bounded = few;
  parts_pending = pending;
}

settle-IsFlow :
    (seq total : ℕ) (a : Assembly) (f : DatagramFlow)
    → IsCounted a
    → length a.pieces ≡ total
    → is_some (lookup seq f.parts) ≡ true
    → IsFlow f
    → IsFlow (settle seq total a f).0
unfolding settle
settle-IsFlow seq total a f c whole known v = elim (Bool-cases (ltb 65507 a.size)) [
  | inl big ↦ rw big forgotten
  | inr fits ↦ elim (Bool-cases (a.count == total)) [
    | inl complete ↦ rw (fits, complete) (deliver-IsFlow (join a.pieces) _ (ground arith) forgotten)
    | inr more ↦
        rw (fits, more)
          (with_parts f (insert seq a f.parts) v (ground (arith, length-insert seq a f.parts)) (
            insert-AllValues IsPending seq a f.parts
              (pending (ground arith) (ground (arith, filled-le-length a.pieces))) v.parts_pending))
  ]
]
  where
    forgotten : IsFlow (record f { parts = delete seq f.parts })
    forgotten =
        with_parts f (delete seq f.parts) v (omega (arith, length-delete seq f.parts))
          (delete-AllValues IsPending seq f.parts v.parts_pending)

    pending : a.size ≤ 65507 → a.count < length a.pieces → IsPending a
    pending h k = record { counted = c.0; sized = c.1; bounded = h; incomplete = k }

is_missing→none : (o : Option (Option (List ℕ))) → is_missing o ≡ true → o ≡ some none
is_missing→none (some none) h = refl
is_missing→none none h = cc
is_missing→none (some (some p)) h = cc

add_piece-IsFlow :
    (seq index total : ℕ) (p : List ℕ) (a : Assembly) (f : DatagramFlow)
    → IsCounted a
    → is_some (lookup seq f.parts) ≡ true
    → IsFlow f
    → IsFlow (add_piece seq index total p a f).0
unfolding add_piece
add_piece-IsFlow seq index total p a f c known v = elim (Bool-cases (length a.pieces == total)) [
  | inr e ↦ rw e v
  | inl e ↦ elim (Bool-cases (is_missing (get_elem? a.pieces index))) [
    | inr there ↦ rw (e, there) v
    | inl free ↦
        let gap : get_elem? a.pieces index ≡ some none =
          is_missing→none (get_elem? a.pieces index) free in
        rw (e, free)
          (settle-IsFlow seq total (with_piece index p a) f (counted gap)
            (length-set a.pieces index (some p) ∙ (==_iff (length a.pieces) total).0 e) known v)
  ]
]
  where
    counted : get_elem? a.pieces index ≡ some none → IsCounted (with_piece index p a)
    counted gap = (
      omega (arith, c.0, filled-set a.pieces index p gap),
      omega (arith, c.1, length-join-set a.pieces index p gap),
    )

expire-IsFlow : (now : ℕ) (f : DatagramFlow) → IsFlow f → IsFlow (expire now f).0
unfolding expire
expire-IsFlow now f v =
    with_parts f (keep (is_fresh now) f.parts) v
      (omega (arith, length-keep (is_fresh now) f.parts, v.parts_bounded))
      (keep-AllValues IsPending (is_fresh now) f.parts v.parts_pending)

collect-IsFlow :
    (now seq index total : ℕ) (p : List ℕ) (f : DatagramFlow)
    → 1 ≤ total
    → IsFlow f
    → IsFlow (collect now seq index total p f).0
unfolding collect
collect-IsFlow now seq index total p f pos v = elim (Option-cases (lookup seq f.parts)) [
  | inr (a, e) ↦
      let old = lookup-AllValues IsPending seq f.parts a e v.parts_pending in
      rw (e, collect)
        (add_piece-IsFlow seq index total p a f (old.counted, old.sized) (ap is_some e) v)
  | inl e ↦ elim (Bool-cases (leb 8 (length f.parts))) [
    | inl full ↦ rw (e, collect) (rw full v)
    | inr room ↦
        rw (e, collect)
          (rw room (
            add_piece-IsFlow seq index total p (new_assembly now total) _
              (sym (filled-replicate total), sym (ap length (join-replicate total))) found
              (with_parts f (insert seq (new_assembly now total) f.parts) v
                (ground (arith, length-insert seq (new_assembly now total) f.parts))
                (insert-AllValues IsPending seq (new_assembly now total) f.parts begun
                  v.parts_pending))))
  ]
]
  where
    found : is_some (lookup seq (insert seq (new_assembly now total) f.parts)) ≡ true
    found = rw (lookup-insert seq seq (new_assembly now total) f.parts, ==_refl seq) refl

    begun : IsPending (new_assembly now total)
    begun = record {
      counted = sym (filled-replicate total);
      sized = sym (ap length (join-replicate total));
      bounded = omega arith;
      incomplete = omega (arith, length-replicate {A = Option (List ℕ)} total none);
    }

accept_fragment-IsFlow :
    (now seq index total : ℕ) (p : List ℕ) (f : DatagramFlow)
    → length p ≤ 1000
    → IsFlow f
    → IsFlow (accept_fragment now seq index total p f).0
unfolding accept_fragment
accept_fragment-IsFlow now seq index total p f h v = elim (Bool-cases (malformed index total p)) [
  | inl bad ↦ rw bad v
  | inr fine ↦ elim (Bool-cases (total == 1)) [
    | inl one ↦ rw (fine, one) (deliver-IsFlow p f (omega arith) v)
    | inr many ↦
        rw (fine, many)
          (collect-IsFlow now seq index total p (expire now f).0 (positive fine)
            (expire-IsFlow now f v))
  ]
]
  where
    positive : malformed index total p ≡ false → 1 ≤ total
    positive fine = unfold malformed in ground arith

-- Whatever datagram arrives, of the length that `receive` lets through, `accept` keeps the flow in
-- order: at most 32 packets queued, none above 65507 bytes, at most eight assemblies, and each of
-- them incomplete, with its count and its size those of the pieces that it holds.
pub accept-IsFlow :
    (now : ℕ) (b : List ℕ) (f : DatagramFlow)
    → length b ≤ 1016
    → IsFlow f
    → IsFlow (accept now b f).0
unfolding accept
accept-IsFlow now b f h v =
    if_cases (λ (r : DatagramFlow × ℕ). IsFlow r.0) f.done _ _ (λ e. v)
      (λ e.
        accept_fragment-IsFlow now (be_at 4 8 b) (be_at 2 12 b) (be_at 2 14 b) (drop 16 b) f
          (omega (arith, length-drop 16 b)) v)

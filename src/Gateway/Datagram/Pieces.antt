-- ===== src/Gateway/Datagram/Pieces.antt =====
-- One piece of a packet at DatagramFlow.accept (internal/gateway/datagram.go): the assembly that it
-- goes into, and what the end of `accept` does with it.
use quic_lab.Common.{
  ℕ, ◌+◌, ◌-◌, ◌^◌, ◌≤◌, ◌<◌, ◌≡◌, refl, sym, ap, ◌∙◌, false, Option, none, some, List, [], ◌∷◌,
  ◌++◌, arith, leb, ◌==◌, lt→ltb, le→ltb, ==_refl, length, get_elem?, set, replicate, length-set,
  length-replicate, get_elem?-replicate,
}
use quic_lab.Common.Maps.{lookup, insert, delete, keep, lookup-keep, length-keep, lookup-keep-none}
use quic_lab.Gateway.Datagram.{
  Assembly, DatagramFlow, deliver, is_fresh, join, settle, with_piece, add_piece, new_assembly,
  collect, expire, accept_fragment, accept, fragment, piece, piece_count,
}
use quic_lab.Gateway.Datagram.Fragments.{
  fragment_fields, pieces_from, flat-pieces, length-pieces_from, get_elem?-pieces_from,
  piece_wellformed,
}
use quic_lab.Gateway.Datagram.Assemblies.{
  Fits, filled, replicate-Fits, filled-replicate, join-replicate, set-Fits, filled-set,
  length-join-set, length-join-le, join_full,
}
use mathlib.Core.Path.{subst}

-- The assembly of a packet whose first piece came at `start`.
abbrev pub assembly_of : ℕ → List (Option (List ℕ)) → Assembly
assembly_of start ps = record {
  at_time = start;
  pieces = ps;
  count = filled ps;
  size = length (join ps);
}

assembly_eq :
    (start : ℕ) (ps : List (Option (List ℕ))) (i : ℕ) (c : List ℕ)
    → get_elem? ps i ≡ some none
    → with_piece i c (assembly_of start ps) ≡ assembly_of start (set ps i (some c))
assembly_eq start ps i c e = λ k. record {
  at_time = start;
  pieces = set ps i (some c);
  count = sym (filled-set ps i c e) k;
  size = sym (length-join-set ps i c e) k;
}

module _ (seq start : ℕ) (b : List ℕ) (ps : List (Option (List ℕ))) (i : ℕ) (f : DatagramFlow)
    (small : length b ≤ 65507) (fits : Fits ps (pieces_from (piece_count b) 0 b))
    (whole : length ps ≡ piece_count b) (missing : get_elem? ps i ≡ some none)
    (below : i < piece_count b) where
  unfoldable pub after_piece : List (Option (List ℕ))
  after_piece = set ps i (some (piece i b))

  pub after-Fits : Fits after_piece (pieces_from (piece_count b) 0 b)
  unfolding after_piece
  after-Fits =
      set-Fits ps _ i (piece i b) (get_elem?-pieces_from (piece_count b) 0 i b below ∙ same) fits
    where
      same : some (piece (0 + i) b) ≡ some (piece i b)
      same = ap (λ (k : ℕ). some (piece k b)) (omega arith)

  pub add_piece_lem :
      add_piece seq i (piece_count b) (piece i b) (assembly_of start ps) f
      ≡ settle seq (piece_count b) (assembly_of start after_piece) f
  unfolding add_piece after_piece
  add_piece_lem =
      rw (whole, ==_refl (piece_count b), missing, assembly_eq start ps i (piece i b) missing) refl

  size_small : length (join after_piece) ≤ 65507
  size_small = omega (arith, length-join-le after_piece _ after-Fits, ap length (flat-pieces b))

  count_after : filled after_piece ≡ filled ps + 1
  unfolding after_piece
  count_after = filled-set ps i (piece i b) missing

  pub settle_more :
      filled ps + 1 < piece_count b
      → settle seq (piece_count b) (assembly_of start after_piece) f
        ≡ (record f { parts = insert seq (assembly_of start after_piece) f.parts }, 0)
  unfolding settle
  settle_more more =
      let differs : (filled after_piece == piece_count b) ≡ false = ground (arith, count_after) in
      rw (le→ltb 65507 (length (join after_piece)) size_small, differs) refl

  pub settle_done :
      filled ps + 1 ≡ piece_count b
      → length f.recv < 32
      → settle seq (piece_count b) (assembly_of start after_piece) f
        ≡ (record f { parts = delete seq f.parts; recv = f.recv ++ (b ∷ []) }, 0)
  unfolding settle deliver
  settle_done complete room =
      let all_there : filled after_piece ≡ piece_count b = count_after ∙ complete in
      let sizes : length after_piece ≡ piece_count b = length_after in
      let packet : join after_piece ≡ b =
        join_full after_piece _ after-Fits (all_there ∙ sym sizes) ∙ flat-pieces b in
      rw
        (
          le→ltb 65507 (length (join after_piece)) size_small,
          all_there,
          ==_refl (piece_count b),
          packet,
          lt→ltb (length f.recv) 32 room,
        )
        refl
    where
      length_after : length after_piece ≡ piece_count b
      length_after = unfold after_piece in (length-set ps i (some (piece i b)) ∙ whole)

-- `accept` on a piece of a packet is `accept_fragment` on its fields.
pub accept_fields :
    (now id seq : ℕ) (b : List ℕ) (i : ℕ) (f : DatagramFlow)
    → id < 2 ^ 64
    → seq < 2 ^ 32
    → length b ≤ 65507
    → i < piece_count b
    → f.done ≡ false
    → accept now (fragment id seq i (piece_count b) (piece i b)) f
      ≡ accept_fragment now seq i (piece_count b) (piece i b) f
unfolding accept
accept_fields now id seq b i f hid hseq small below open_still =
    let n : i < 65536 = omega arith in
    let t : piece_count b < 65536 = omega arith in
    let (e0, e1, e2, e3, e4) = fragment_fields id seq i (piece_count b) (piece i b) hid hseq n t in
    rw (open_still, e1, e2, e3, e4) refl

abbrev pub unexpired : ℕ → DatagramFlow → DatagramFlow
unexpired now f = record f { parts = keep (is_fresh now) f.parts }

not_single : (n : ℕ) → 2 ≤ n → (n == 1) ≡ false
not_single n h = ground arith

-- A piece of a packet of two pieces or more goes into its assembly, if that is not too old.
pub held_fragment :
    (now seq start : ℕ) (b : List ℕ) (ps : List (Option (List ℕ))) (i : ℕ) (f : DatagramFlow)
    → length b ≤ 65507
    → (fits : Fits ps (pieces_from (piece_count b) 0 b)) → length ps ≡ piece_count b
    → get_elem? ps i ≡ some none
    → i < piece_count b
    → 2 ≤ piece_count b
    → lookup seq f.parts ≡ some (assembly_of start ps)
    → now - start ≤ 500_000_000
    → (accept_fragment now seq i (piece_count b) (piece i b) f).0
      ≡ (settle seq
          (piece_count b)
          (assembly_of start (set ps i (some (piece i b))))
          (unexpired now f)).0
unfolding accept_fragment collect expire after_piece
held_fragment now seq start b ps i f small fits whole missing below two held fresh =
    let kept : lookup seq (keep (is_fresh now) f.parts) ≡ some (assembly_of start ps) =
      lookup-keep (is_fresh now) seq f.parts (assembly_of start ps) held (ground arith) in
    rw
      (
        piece_wellformed b i small below,
        not_single (piece_count b) two,
        kept,
        collect,
        add_piece_lem seq start b ps i (unexpired now f) small fits whole missing below,
      )
      refl

-- The first piece begins an assembly, if fewer than eight are there.
pub first_fragment :
    (now seq : ℕ) (b : List ℕ) (i : ℕ) (f : DatagramFlow)
    → length b ≤ 65507
    → i < piece_count b
    → 2 ≤ piece_count b
    → lookup seq f.parts ≡ none
    → length f.parts < 8
    → (accept_fragment now seq i (piece_count b) (piece i b) f).0
      ≡ (settle seq
          (piece_count b)
          (assembly_of now (set (replicate (piece_count b) none) i (some (piece i b))))
          (record f {
            parts = insert seq (new_assembly now (piece_count b)) (keep (is_fresh now) f.parts);
          })).0
unfolding accept_fragment collect expire after_piece
first_fragment now seq b i f small below two new room =
    let t = piece_count b in
    let absent : lookup seq (keep (is_fresh now) f.parts) ≡ none =
      lookup-keep-none (is_fresh now) seq f.parts new in
    let few : leb 8 (length (keep (is_fresh now) f.parts)) ≡ false =
      ground (arith, length-keep (is_fresh now) f.parts) in
    let fresh : new_assembly now t ≡ assembly_of now (replicate t none) = λ k. record {
      at_time = now;
      pieces = replicate t none;
      count = sym (filled-replicate t) k;
      size = ap length (sym (join-replicate t)) k;
    } in
    let f' : DatagramFlow = record f {
      parts = insert seq (new_assembly now t) (keep (is_fresh now) f.parts);
    } in
    let added =
      add_piece_lem seq now b (replicate t none) i f' small
        (subst (λ n. Fits (replicate n none) (pieces_from t 0 b)) (length-pieces_from t 0 b)
          (replicate-Fits (pieces_from t 0 b)))
        (length-replicate t none) (get_elem?-replicate t i none below) below in
    rw (piece_wellformed b i small below, not_single t two, absent, collect)
      (rw (few) (
        ap (λ (a : Assembly). (add_piece seq i t (piece i b) a f').0) fresh
        ∙ ap (λ (r : DatagramFlow × ℕ). r.0) added))

-- ===== src/Gateway/Datagram/Assemblies.antt =====
-- The pieces that an assembly holds (`assembly` of internal/gateway/datagram.go), against the pieces
-- that the packet was cut into.
use quic_lab.Common.{
  ℕ, zero, suc, ◌+◌, ◌≤◌, ◌≡◌, refl, ap, Option, none, some, List, [], ◌∷◌, ◌++◌, arith, length,
  get_elem?, set, replicate, length-append,
}
use quic_lab.Gateway.Datagram.{join}
use quic_lab.Gateway.Datagram.Fragments.{flat}
use mathlib.Core.Path.{ap₂}

-- Each place is empty or holds the packet's own piece.
abbrev pub Fits : List (Option (List ℕ)) → List (List ℕ) → Type 0
Fits [] [] = Unit {0}
Fits (none ∷ ps) (c ∷ cs) = Fits ps cs
Fits (some p ∷ ps) (c ∷ cs) = (p ≡ c) × Fits ps cs
Fits _ _ = ⊥

abbrev pub filled : List (Option (List ℕ)) → ℕ
filled [] = 0
filled (none ∷ ps) = filled ps
filled (some p ∷ ps) = suc (filled ps)

pub replicate-Fits : (cs : List (List ℕ)) → Fits (replicate (length cs) none) cs
replicate-Fits [] = tt
replicate-Fits (c ∷ cs) = replicate-Fits cs

pub filled-replicate : (n : ℕ) → filled (replicate n none) ≡ 0
filled-replicate zero = refl
filled-replicate (suc n) = filled-replicate n

pub join-replicate : (n : ℕ) → join (replicate n none) ≡ []
unfolding join
join-replicate zero = refl
join-replicate (suc n) = join-replicate n

pub set-Fits :
    (ps : List (Option (List ℕ))) (cs : List (List ℕ)) (i : ℕ) (c : List ℕ)
    → get_elem? cs i ≡ some c
    → Fits ps cs
    → Fits (set ps i (some c)) cs
set-Fits [] cs i c e h = h
set-Fits (none ∷ ps) [] i c e h = absurd h
set-Fits (some p ∷ ps) [] i c e h = absurd h
set-Fits (none ∷ ps) (d ∷ cs) zero c e h = (cc, h)
set-Fits (some p ∷ ps) (d ∷ cs) zero c e h = (cc, h.1)
set-Fits (none ∷ ps) (d ∷ cs) (suc i) c e h = set-Fits ps cs i c e h
set-Fits (some p ∷ ps) (d ∷ cs) (suc i) c e h = (h.0, set-Fits ps cs i c e h.1)

pub filled-set :
    (ps : List (Option (List ℕ))) (i : ℕ) (c : List ℕ)
    → get_elem? ps i ≡ some none
    → filled (set ps i (some c)) ≡ filled ps + 1
filled-set [] i c e = cc
filled-set (none ∷ ps) zero c e = omega arith
filled-set (some p ∷ ps) zero c e = cc
filled-set (none ∷ ps) (suc i) c e = filled-set ps i c e
filled-set (some p ∷ ps) (suc i) c e = omega (arith, filled-set ps i c e)

pub length-join-set :
    (ps : List (Option (List ℕ))) (i : ℕ) (c : List ℕ)
    → get_elem? ps i ≡ some none
    → length (join (set ps i (some c))) ≡ length (join ps) + length c
unfolding join
length-join-set [] i c e = cc
length-join-set (none ∷ ps) zero c e = omega (arith, length-append c (join ps))
length-join-set (some p ∷ ps) zero c e = cc
length-join-set (none ∷ ps) (suc i) c e = length-join-set ps i c e
length-join-set (some p ∷ ps) (suc i) c e = omega (
  arith,
  length-join-set ps i c e,
  length-append p (join (set ps i (some c))),
  length-append p (join ps),
)

pub length-join-le :
    (ps : List (Option (List ℕ))) (cs : List (List ℕ))
    → Fits ps cs
    → length (join ps) ≤ length (flat cs)
unfolding join
length-join-le [] [] h = omega arith
length-join-le [] (c ∷ cs) h = absurd h
length-join-le (none ∷ ps) [] h = absurd h
length-join-le (some p ∷ ps) [] h = absurd h
length-join-le (none ∷ ps) (c ∷ cs) h =
    omega (arith, length-join-le ps cs h, length-append c (flat cs))
length-join-le (some p ∷ ps) (c ∷ cs) h = omega (
  arith,
  length-join-le ps cs h.1,
  length-append c (flat cs),
  length-append p (join ps),
  ap length h.0,
)

pub filled-le-length : (ps : List (Option (List ℕ))) → filled ps ≤ length ps
filled-le-length [] = omega arith
filled-le-length (none ∷ ps) = omega (arith, filled-le-length ps)
filled-le-length (some p ∷ ps) = omega (arith, filled-le-length ps)

-- With every place filled, the pieces in order are the packet.
pub join_full :
    (ps : List (Option (List ℕ))) (cs : List (List ℕ))
    → Fits ps cs
    → filled ps ≡ length ps
    → join ps ≡ flat cs
unfolding join
join_full [] [] h e = refl
join_full [] (c ∷ cs) h e = absurd h
join_full (none ∷ ps) [] h e = absurd h
join_full (some p ∷ ps) [] h e = absurd h
join_full (none ∷ ps) (c ∷ cs) h e = absurd (omega (arith, filled-le-length ps))
join_full (some p ∷ ps) (c ∷ cs) h e = ap₂ ◌++◌ h.0 (join_full ps cs h.1 (omega arith))

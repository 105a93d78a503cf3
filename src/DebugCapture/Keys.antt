-- ===== src/DebugCapture/Keys.antt =====
-- internal/debugcapture/serverkeys.go: the TLS secrets of a listener go to its running captures.
use quic_lab.Common.{
  ℕ, ◌≡◌, refl, ap, ◌∙◌, ◌≢◌, ◌⊎◌, inl, inr, Bool, true, false, not, ◌&&◌, ◌||◌, Option, none, some,
  List, [], ◌∷◌, arith, ◌==◌, if◌then◌else◌, Bool-cases, is_some,
}
use quic_lab.Common.Maps.{lookup}
use quic_lab.DebugCapture.Session.{is_running, Session, write_keys}

abbrev pub is_selected : ℕ → Bool → Session → Bool
is_selected port udp s =
    not (is_some s.user)
    && is_running s.state
    && ((udp && s.port == port) || (not udp && s.tcp_port == port))

-- serverKeys.Write with an installed manager.
unfoldable pub route_keys : ℕ → ℕ → Bool → List ℕ → List (ℕ × Session) → List (ℕ × Session)
unfolding write_keys
route_keys now port udp p [] = []
route_keys now port udp p ((id, s) ∷ m) =
    (id, if is_selected port udp s then (write_keys now p s).1 else s) ∷ route_keys now port udp p m

-- What is under a key behind a write of secrets.
abbrev pub with_keys : ℕ → ℕ → Bool → List ℕ → Option Session → Option Session
with_keys now port udp p none = none
with_keys now port udp p (some s) =
    some (if is_selected port udp s then (write_keys now p s).1 else s)

lookup-route_keys :
    (now port : ℕ) (udp : Bool) (p : List ℕ) (id : ℕ) (m : List (ℕ × Session))
    → lookup id (route_keys now port udp p m) ≡ with_keys now port udp p (lookup id m)
unfolding route_keys lookup
lookup-route_keys now port udp p id [] = refl
lookup-route_keys now port udp p id ((j, s) ∷ m) = elim (Bool-cases (j == id)) [
  | inl e ↦ rw e refl
  | inr e ↦ rw e (lookup-route_keys now port udp p id m)
]

-- The secrets of a listener change no session that has ended, that listens at another port, or that
-- is the capture of a user: such a session is found as it was.
pub route_keys-others :
    (now port : ℕ) (udp : Bool) (p : List ℕ) (id : ℕ) (m : List (ℕ × Session)) (s : Session)
    → lookup id m ≡ some s
    → ((is_some s.user ≡ true) ⊎ (is_running s.state ≡ false))
      ⊎ ((if udp then s.port else s.tcp_port) ≢ port)
    → lookup id (route_keys now port udp p m) ≡ some s
route_keys-others now port udp p id m s found other =
    lookup-route_keys now port udp p id m ∙ (rw found (ap some (kept other)))
  where
    kept :
        ((is_some s.user ≡ true) ⊎ (is_running s.state ≡ false))
          ⊎ ((if udp then s.port else s.tcp_port) ≢ port)
        → (if is_selected port udp s then (write_keys now p s).1 else s) ≡ s
    kept h = elim (Bool-cases (is_selected port udp s)) [
      | inl e ↦ absurd (ground arith)
      | inr e ↦ rw e refl
    ]

-- ===== src/Admin/Web/Limits.antt =====
-- internal/admin/web.go: how often credentials are compared, and how many sessions there are.
use Prim.Native.Nat.{min}
use mathlib.Core.Path.{subst}
use quic_lab.Common.{
  ℕ, ◌+◌, ◌≤◌, ◌<◌, ◌≡◌, sym, ◌⊎◌, inl, inr, Bool, true, false, List, [], ◌∷◌, arith, if◌then◌else◌,
}
use quic_lab.Admin.Web.{
  Web, login_window, max_attempts, prune, save_sessions, LoginResult, LoginAttempt, open_session,
  login, bad_origin, too_many,
}

abbrev pub was_compared : LoginResult → Bool
was_compared bad_origin = false
was_compared too_many = false
was_compared r = true

module _ (digest : List ℕ → ℕ) (username password : List ℕ) where
  -- How many of the attempts get as far as the comparison of the credentials.
  unfoldable pub compared : List LoginAttempt → Web → ℕ
  unfolding login
  compared [] w = 0
  compared (a ∷ more) w =
      let (r, next) = login digest username password a w in
      (if was_compared r then 1 else 0) + compared more next

  -- All attempts fall into the window that is open.
  abbrev pub InWindow : ℕ → List LoginAttempt → Type 0
  InWindow start [] = Unit {0}
  InWindow start (a ∷ more) = (a.now ≤ start + login_window) × InWindow start more

  abbrev LoginCounts : LoginAttempt → Web → LoginResult × Web → Type 0
  LoginCounts a w (r, next) =
      (next.window ≡ w.window)
      × ((was_compared r ≡ false) × (w.attempts ≤ next.attempts)
          ⊎ ((next.attempts ≡ w.attempts + 1) × (w.attempts < max_attempts)))

  login-LoginCounts :
      (a : LoginAttempt) (w : Web)
      → a.now ≤ w.window + login_window
      → LoginCounts a w (login digest username password a w)
  unfolding login open_session save_sessions prune
  login-LoginCounts a w h = ground arith

  one_counted :
      (b : Bool) (rest before after : ℕ)
      → rest + min after max_attempts ≤ max_attempts
      → after ≡ before + 1
      → before < max_attempts
      → (if b then 1 else 0) + rest + min before max_attempts ≤ max_attempts
  one_counted b rest before after later e few = ground arith

  -- However many attempts are made within the minute of a window, from any addresses and with any
  -- credentials, at most twenty in all are compared with the server's credentials.
  pub compared_le :
      (attempts : List LoginAttempt) (w : Web)
      → InWindow w.window attempts
      → compared attempts w + min w.attempts max_attempts ≤ max_attempts
  unfolding compared
  compared_le [] w h = omega arith
  compared_le (a ∷ more) w (first, rest) =
      let (same_window, counts) = login-LoginCounts a w first in
      let (r, next) = login digest username password a w in
      let later = compared_le more next (subst (λ s. InWindow s more) (sym same_window) rest) in
      elim counts [
        | inl (not_compared, more_attempts) ↦ rw not_compared (omega (arith, later, more_attempts))
        | inr (one_more, few) ↦
            one_counted (was_compared r) (compared more next) w.attempts next.attempts later
              one_more few
      ]

-- ===== src/Admin/Web/Once.antt =====
-- internal/admin/web.go: a ticket of a QR code enrolls at most once.
use quic_lab.Common.{
  ℕ, ◌+◌, ◌≡◌, refl, ap, ◌∙◌, ◌≢◌, inl, inr, Bool, true, false, not, Option, none, some, List,
  arith, ◌==◌, ==_refl, Bool-cases, is_some, if_cases, GoError,
}
use quic_lab.Common.Maps.{lookup, delete, lookup-delete, insert_miss, delete_hit, lookup-keep-none}
use quic_lab.Admin.{Store}
use quic_lab.Admin.Accounts.{delete_user}
use quic_lab.Admin.Web.{
  Ticket, Web, ticket_time, ticket_lives, prune, get_session, authorized, save_sessions,
  LoginAttempt, open_session, login, logout, drop_tickets, draw_ticket, enroll_profile, enroll,
  deleted, delete_account, used_up,
}
use quic_lab.Admin.Web.Steps.{WebStep, visits, logs_in, logs_out, draws, enrolls, deletes}

module _ (digest : List ℕ → ℕ) (username password : List ℕ) where
  -- The request does not draw the token again.
  abbrev pub DrawsOther :
      ℕ → {now : ℕ} {w v : Web} → WebStep digest username password now w v → Type 0
  DrawsOther token (draws user drawn) = drawn ≢ token
  DrawsOther token step = Unit {0}

  pub data OtherRequests (token : ℕ) (w : Web) : Web → Type 0 where
    none_yet : OtherRequests token w w
    one_request :
        {v u : Web} (now : ℕ)
        → OtherRequests token w v
        → (step : WebStep digest username password now v u) → DrawsOther token step
        → OtherRequests token w u

  abbrev HasNone : ℕ → Web → Type 0
  HasNone token w = lookup token w.tickets ≡ none

  prune-HasNone : (token now : ℕ) (w : Web) → HasNone token w → HasNone token (prune now w)
  unfolding prune
  prune-HasNone token now w h = lookup-keep-none (ticket_lives now) token w.tickets h

  get_session-tickets :
      (token now : ℕ) (cookie : Option ℕ) (w : Web)
      → HasNone token w
      → HasNone token (get_session now cookie w).1
  unfolding get_session
  get_session-tickets token now none w h = h
  get_session-tickets token now (some c) w h = prune-HasNone token now w h

  login-HasNone :
      (token : ℕ) (a : LoginAttempt) (w : Web)
      → HasNone token w
      → HasNone token (login digest username password a w).1
  unfolding login open_session save_sessions
  login-HasNone token a w h = let pruned = prune-HasNone token a.now w h in ground arith

  logout-HasNone :
      (token : ℕ) (saved : Bool) (c : ℕ) (w : Web)
      → HasNone token w
      → HasNone token (logout digest username password saved c w).1
  unfolding logout save_sessions
  logout-HasNone token saved c w h = ground arith

  drop-HasNone : (token user : ℕ) (w : Web) → HasNone token w → HasNone token (drop_tickets user w)
  unfolding drop_tickets
  drop-HasNone token user w h = lookup-keep-none (λ t. not (t.user == user)) token w.tickets h

  draw-HasNone :
      (token now user drawn : ℕ) (w : Web)
      → drawn ≢ token
      → HasNone token w
      → HasNone token (draw_ticket now user drawn w)
  unfolding draw_ticket
  draw-HasNone token now user drawn w ne h =
      insert_miss drawn token (record { user = user; until_time = now + ticket_time })
        (drop_tickets user (prune now w)).tickets (ground arith)
      ∙ drop-HasNone token user (prune now w) (prune-HasNone token now w h)

  deleted-or-HasNone :
      (token c : ℕ) (m : List (ℕ × Ticket))
      → lookup token m ≡ none
      → lookup token (delete c m) ≡ none
  deleted-or-HasNone token c m h =
      lookup-delete c token m
      ∙ if_cases (λ (o : Option Ticket). o ≡ none) (c == token) none (lookup token m) (λ e. refl)
          (λ e. h)

  enroll-HasNone :
      (token now : ℕ) (c : Option ℕ) (store : Store) (w : Web)
      → HasNone token w
      → HasNone token (enroll now c store w).1
  unfolding enroll
  enroll-HasNone token now none store w h = h
  enroll-HasNone token now (some c) store w h =
      let pruned = prune-HasNone token now w h in
      if_cases (λ (m : List (ℕ × Ticket)). lookup token m ≡ none)
        (is_some (lookup c (prune now w).tickets)) _ _
        (λ e. deleted-or-HasNone token c (prune now w).tickets pruned) (λ e. pruned)

  deleted-HasNone :
      (token user : ℕ) (r : Option GoError × Store) (w : Web)
      → HasNone token w
      → HasNone token (deleted user r w).1.1
  deleted-HasNone token user (some e, store) w h = h
  deleted-HasNone token user (none, store) w h = drop-HasNone token user w h

  step-HasNone :
      (token : ℕ) {now : ℕ} {w v : Web} (step : WebStep digest username password now w v)
      → DrawsOther token step
      → HasNone token w
      → HasNone token v
  unfolding authorized delete_account
  step-HasNone token {now} {w} (visits post r) quiet h = get_session-tickets token now r.cookie w h
  step-HasNone token {now} {w} (logs_in a e f) quiet h = login-HasNone token a w h
  step-HasNone token {now} {w} (logs_out saved c) quiet h = logout-HasNone token saved c w h
  step-HasNone token {now} {w} (draws user drawn) quiet h =
      draw-HasNone token now user drawn w quiet h
  step-HasNone token {now} {w} (enrolls c store) quiet h = enroll-HasNone token now c store w h
  step-HasNone token {now} {w} (deletes saved user store) quiet h =
      deleted-HasNone token user (delete_user saved user store) w h

  requests-HasNone :
      (token : ℕ) {w v : Web} → OtherRequests token w v → HasNone token w → HasNone token v
  requests-HasNone token none_yet h = h
  requests-HasNone token (one_request now r step quiet) h =
      step-HasNone token step quiet (requests-HasNone token r h)

  used-HasNone :
      (token now : ℕ) (store : Store) (w : Web) → HasNone token (enroll now (some token) store w).1
  unfolding enroll
  used-HasNone token now store w =
      elim (Bool-cases (is_some (lookup token (prune now w).tickets))) [
        | inl e ↦ rw e (delete_hit token token (prune now w).tickets (==_refl token))
        | inr e ↦ rw e (not_some (lookup token (prune now w).tickets) e)
      ]
    where
      not_some : (o : Option Ticket) → is_some o ≡ false → o ≡ none
      not_some none h = refl
      not_some (some t) h = absurd (let bad : true ≡ false = h in cc)

  -- Once a client has shown a token, whether it got a profile or not, no later request gets a profile
  -- with it, unless the token is drawn again: it is answered as expired or used up.
  pub enroll-once :
      (token now later : ℕ) (store others : Store) (w v : Web)
      → OtherRequests token (enroll now (some token) store w).1 v
      → (enroll later (some token) others v).0 ≡ used_up
  unfolding enroll
  enroll-once token now later store others w v r =
      ap (λ o. enroll_profile later o others)
        (prune-HasNone token later v (requests-HasNone token r (used-HasNone token now store w)))

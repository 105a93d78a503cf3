-- ===== src/Admin/Web/Steps.antt =====
-- internal/admin/web.go: the requests of the administrator and of clients, in the order of the clock.
use quic_lab.Common.{ℕ, ◌≤◌, ◌≡◌, Bool, Option, none, List}
use quic_lab.Common.Maps.{lookup}
use quic_lab.Admin.{Store}
use quic_lab.Admin.Web.{
  Web, PageRequest, authorized, LoginAttempt, login, logout, draw_ticket, enroll, delete_account,
}

module _ (digest : List ℕ → ℕ) (username password : List ℕ) where
  -- One request. A new session's token is one that no session has.
  pub data WebStep (now : ℕ) (w : Web) : Web → Type 0 where
    visits : (post : Bool) (r : PageRequest) → WebStep now w (authorized now post r w).1
    logs_in :
        (a : LoginAttempt)
        → a.now ≡ now
        → lookup a.token w.sessions ≡ none
        → WebStep now w (login digest username password a w).1
    logs_out :
        (saved : Bool) (token : ℕ) → WebStep now w (logout digest username password saved token w).1
    draws : (user token : ℕ) → WebStep now w (draw_ticket now user token w)
    enrolls : (token : Option ℕ) (store : Store) → WebStep now w (enroll now token store w).1
    deletes :
        (saved : Bool) (user : ℕ) (store : Store)
        → WebStep now w (delete_account saved user store w).1.1

  -- Requests from the time `a` on, the last one at `b` or before.
  pub data WebReach (a : ℕ) (w : Web) : ℕ → Web → Type 0 where
    no_request : WebReach a w a w
    and_request :
        {b : ℕ} {v u : Web} (now : ℕ)
        → WebReach a w b v
        → b ≤ now
        → WebStep now v u
        → WebReach a w now u

-- ===== src/Examples/Admins.antt =====
-- internal/admin/web.go at concrete inputs: a log-in, a restart and a ticket.
use quic_lab.Common.{ℕ, ◌+◌, ◌*◌, ◌≤◌, ◌≡◌, refl, true, none, some, List, [], ◌∷◌, arith}
use quic_lab.Common.Maps.{lookup, insert, keep}
use quic_lab.Admin.{Store}
use quic_lab.Admin.Web.{
  Web, login_window, prune, save_sessions, LoginAttempt, open_session, login, restart, draw_ticket,
  enroll, logged_in, used_up,
}
use quic_lab.Admin.Web.Steps.{logs_in, draws, no_request, and_request}
use quic_lab.Admin.Web.Once.{enroll-once, none_yet, one_request}
use quic_lab.Admin.Web.Limits.{compared, compared_le}
use quic_lab.Admin.Web.Durable.{live_at}
use quic_lab.Admin.Web.Restart.{restart-same}

sum_of : List ℕ → ℕ
sum_of [] = 0
sum_of (x ∷ xs) = x + 2 * sum_of xs

abbrev empty_web : Web
empty_web = record { sessions = []; tickets = []; attempts = 0; window = 0; file = none }

abbrev first_login : LoginAttempt
first_login = record {
  now = login_window + 1;
  same_origin = true;
  form_parses = true;
  username = 1 ∷ [];
  password = 2 ∷ [];
  token = 77;
  csrf = 88;
  saved = true;
}

abbrev after_login : Web
after_login = (login sum_of (1 ∷ []) (2 ∷ []) first_login empty_web).1

is_logged_in : (login sum_of (1 ∷ []) (2 ∷ []) first_login empty_web).0 ≡ logged_in 77
unfolding login open_session prune keep insert save_sessions sum_of
is_logged_in = refl

restart-same_example :
    live_at
      (2 * login_window)
      (lookup 77 (restart sum_of (1 ∷ []) (2 ∷ []) (2 * login_window) after_login).sessions)
    ≡ live_at (2 * login_window) (lookup 77 after_login.sessions)
unfolding lookup
restart-same_example =
    restart-same sum_of (1 ∷ []) (2 ∷ []) 1 (login_window + 1) (2 * login_window) after_login
      (omega arith)
      (and_request (login_window + 1) no_request (omega arith) (logs_in first_login refl refl))
      (omega arith) 77

compared_le_example :
    compared sum_of
        (1 ∷ [])
        (2 ∷ [])
        (first_login ∷ first_login ∷ [])
        (record empty_web { window = 1; attempts = 19 })
      + 19
    ≤ 20
compared_le_example =
    compared_le sum_of (1 ∷ []) (2 ∷ []) (first_login ∷ first_login ∷ [])
      (record empty_web { window = 1; attempts = 19 }) (omega arith, (omega arith, tt))

abbrev no_accounts : Store
no_accounts = record {
  awg_config = none;
  identity = none;
  users = [];
  ca_expires = 0;
  ca_text = [];
  active = [];
  session_protocols = [];
  disk = record { identity = none; users = [] };
  closed = [];
}

abbrev with_ticket : Web
with_ticket = draw_ticket 5 3 44 empty_web

enroll-once_example :
    (enroll 7
      (some 44)
      no_accounts
      (draw_ticket 6 3 45 (enroll 6 (some 44) no_accounts with_ticket).1)).0
    ≡ used_up
enroll-once_example =
    enroll-once sum_of [] [] 44 6 7 no_accounts no_accounts with_ticket
      (draw_ticket 6 3 45 (enroll 6 (some 44) no_accounts with_ticket).1)
      (one_request 6 none_yet (draws 3 45) (λ e. omega (arith, e)))

-- ===== src/Admin/Web/Restart.antt =====
-- internal/admin/web.go and sessions.go: a restart neither ends nor revives a session.
use mathlib.Core.Path.{subst}
use quic_lab.Common.{
  ℕ, ◌≤◌, ◌≡◌, refl, sym, ◌∙◌, Bool, true, false, Option, none, some, List, [], arith, ◌==◌,
  if_cases, GoError,
}
use quic_lab.Common.OwnKeys.{OwnKeys, insert-OwnKeys, delete-OwnKeys}
use quic_lab.Common.Maps.{lookup, insert, delete}
use quic_lab.Admin.{Store}
use quic_lab.Admin.Accounts.{delete_user}
use quic_lab.Admin.Web.{
  Ticket, SessionFile, Web, prune, get_session, authorized, save_sessions, session_or_zero,
  credential_id, login, logout, with_file, restart, drop_tickets, draw_ticket, enroll, deleted,
  delete_account,
}
use quic_lab.Admin.Web.Steps.{
  WebStep, WebReach, visits, logs_in, logs_out, draws, enrolls, deletes, no_request, and_request,
}
use quic_lab.Admin.Web.Durable.{
  live_at, file_sessions, FileCredential, live-keep, IsWeb, later-IsWeb, prune-IsWeb, written-IsWeb,
  same-IsWeb, undone_delete, login-IsWeb,
}

-- Only tickets have changed.
tickets-IsWeb :
    (credential now : ℕ) (w : Web) (tickets : List (ℕ × Ticket))
    → IsWeb credential now w
    → IsWeb credential now (record w { tickets = tickets })
tickets-IsWeb credential now w tickets good = record {
  own_sessions = good.own_sessions;
  own_file = good.own_file;
  same_credential = good.same_credential;
  agrees = good.agrees;
}

get_session-IsWeb :
    (credential now : ℕ) (cookie : Option ℕ) (w : Web)
    → IsWeb credential now w
    → IsWeb credential now (get_session now cookie w).1
unfolding get_session
get_session-IsWeb credential now none w good = good
get_session-IsWeb credential now (some token) w good = prune-IsWeb credential now w good

enroll-IsWeb :
    (credential now : ℕ) (token : Option ℕ) (store : Store) (w : Web)
    → IsWeb credential now w
    → IsWeb credential now (enroll now token store w).1
unfolding enroll
enroll-IsWeb credential now none store w good = good
enroll-IsWeb credential now (some token) store w good =
    tickets-IsWeb credential now (prune now w) (enroll now (some token) store w).1.tickets
      (prune-IsWeb credential now w good)

draw-IsWeb :
    (credential now user token : ℕ) (w : Web)
    → IsWeb credential now w
    → IsWeb credential now (draw_ticket now user token w)
unfolding draw_ticket drop_tickets
draw-IsWeb credential now user token w good =
    tickets-IsWeb credential now (prune now w) (draw_ticket now user token w).tickets
      (prune-IsWeb credential now w good)

deleted-IsWeb :
    (credential now user : ℕ) (r : Option GoError × Store) (w : Web)
    → IsWeb credential now w
    → IsWeb credential now (deleted user r w).1.1
unfolding drop_tickets
deleted-IsWeb credential now user (some e, store) w good = good
deleted-IsWeb credential now user (none, store) w good =
    tickets-IsWeb credential now w (drop_tickets user w).tickets good

module _ (digest : List ℕ → ℕ) (username password : List ℕ) where
  abbrev credential : ℕ
  credential = credential_id digest username password

  logout-IsWeb :
      (now : ℕ) (saved : Bool) (token : ℕ) (w : Web)
      → 1 ≤ now
      → IsWeb credential now w
      → IsWeb credential now (logout digest username password saved token w).1
  unfolding logout save_sessions
  logout-IsWeb now true token w positive good =
      written-IsWeb credential now w (delete token w.sessions)
        (delete-OwnKeys token w.sessions good.own_sessions)
  logout-IsWeb now false token w positive good =
      same-IsWeb credential now w
        (insert token (session_or_zero (lookup token w.sessions)) (delete token w.sessions))
        (insert-OwnKeys token (session_or_zero (lookup token w.sessions)) (delete token w.sessions)
          (delete-OwnKeys token w.sessions good.own_sessions))
        (λ later j le. undone_delete token j later w.sessions (omega (arith, le, positive))) good

  step-IsWeb :
      {now : ℕ} {w v : Web}
      → WebStep digest username password now w v
      → 1 ≤ now
      → IsWeb credential now w
      → IsWeb credential now v
  unfolding authorized delete_account
  step-IsWeb {now} {w} (visits post r) positive good =
      get_session-IsWeb credential now r.cookie w good
  step-IsWeb {now} {w} (logs_in a e fresh) positive good =
      subst (λ t. IsWeb credential t (login digest username password a w).1) e
        (login-IsWeb digest username password a w fresh
          (subst (λ t. IsWeb credential t w) (sym e) good))
  step-IsWeb {now} {w} (logs_out saved token) positive good =
      logout-IsWeb now saved token w positive good
  step-IsWeb {now} {w} (draws user token) positive good =
      draw-IsWeb credential now user token w good
  step-IsWeb {now} {w} (enrolls token store) positive good =
      enroll-IsWeb credential now token store w good
  step-IsWeb {now} {w} (deletes saved user store) positive good =
      deleted-IsWeb credential now user (delete_user saved user store) w good

  reach-IsWeb :
      {a : ℕ} {w : Web} {b : ℕ} {v : Web}
      → WebReach digest username password a w b v
      → 1 ≤ a
      → IsWeb credential a w
      → (1 ≤ b) × IsWeb credential b v
  reach-IsWeb no_request positive good = (positive, good)
  reach-IsWeb (and_request {b} {v} now r le step) positive good =
      let (positive', good') = reach-IsWeb r positive good in
      let later : 1 ≤ now = omega (arith, positive', le) in
      (later, step-IsWeb step later (later-IsWeb credential b now v le good'))

  empty-IsWeb :
      (t : ℕ)
      → IsWeb credential t
          (record { sessions = []; tickets = []; attempts = 0; window = 0; file = none })
  empty-IsWeb t = record {
    own_sessions = tt;
    own_file = tt;
    same_credential = tt;
    agrees = λ later token le. refl;
  }

  restarted :
      (now token : ℕ) (o : Option SessionFile) (w : Web)
      → OwnKeys (file_sessions o)
      → FileCredential credential o
      → w.sessions ≡ []
      → live_at now (lookup token (with_file digest username password now o w).sessions)
        ≡ live_at now (lookup token (file_sessions o))
  unfolding prune
  restarted now token none w own same empty = rw empty refl
  restarted now token (some f) w own same empty =
      if_cases
        (λ (v : Web). live_at now (lookup token v.sessions) ≡ live_at now (lookup token f.sessions))
        (f.credential == credential) _ _ (λ e. live-keep now now token f.sessions own (omega arith))
        (λ e. absurd (ground arith))

  -- A server that starts without a file and serves any requests, with writes of the file that succeed
  -- or fail: if it is restarted with the same credentials, then under every token the same session
  -- counts as without the restart. A session that was logged out stays so, one that was not stays
  -- usable until it runs out.
  pub restart-same :
      (start last now : ℕ) (w : Web)
      → 1 ≤ start
      → WebReach digest username password start
          (record { sessions = []; tickets = []; attempts = 0; window = 0; file = none })
          last
          w
      → last ≤ now
      → (token : ℕ)
      → live_at now (lookup token (restart digest username password now w).sessions)
        ≡ live_at now (lookup token w.sessions)
  unfolding restart
  restart-same start last now w positive r le token =
      let good = (reach-IsWeb r positive (empty-IsWeb start)).1 in
      restarted now token w.file
        (record { sessions = []; tickets = []; attempts = 0; window = 0; file = w.file })
        good.own_file good.same_credential refl
      ∙ sym (good.agrees now token le)

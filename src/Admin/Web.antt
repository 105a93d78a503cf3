-- ===== src/Admin/Web.antt =====
-- internal/admin/web.go and sessions.go: the administrator's sessions, the limit on log-ins and the
-- one-time tickets of the QR codes. The digest of the credentials (sha256) is a parameter. A random
-- text is a number; a cookie or a token of a request is a number too, or none where it is missing.
pub mod Steps
pub mod Once
pub mod Durable
pub mod Restart
pub mod Limits
use quic_lab.Common.{
  ℕ, ◌+◌, ◌-◌, ◌*◌, Bool, true, false, not, ◌&&◌, ◌||◌, Option, none, some, List, [], ◌∷◌, ◌++◌,
  ltb, leb, ◌==◌, if◌then◌else◌, is_some, length, GoError, err, ok,
}
use quic_lab.Common.Maps.{lookup, insert, delete, keep}
use quic_lab.Admin.{User, Store}
use quic_lab.Admin.Accounts.{profile, delete_user}

pub record WebSession : Type 0 where
  pub csrf : Option ℕ
  pub until_time : ℕ

pub record Ticket : Type 0 where
  pub user : ℕ
  pub until_time : ℕ

-- The file of the sessions: the digest of the credentials and the sessions.
pub record SessionFile : Type 0 where
  pub credential : ℕ
  pub sessions : List (ℕ × WebSession)

pub record Web : Type 0 where
  pub sessions : List (ℕ × WebSession)
  pub tickets : List (ℕ × Ticket)
  pub attempts : ℕ
  pub window : ℕ
  pub file : Option SessionFile

abbrev pub login_window : ℕ
login_window = 60_000_000_000

abbrev pub session_time : ℕ
session_time = 8 * 60 * login_window

abbrev pub ticket_time : ℕ
ticket_time = 5 * login_window

abbrev pub max_attempts : ℕ
max_attempts = 20

abbrev pub max_web_sessions : ℕ
max_web_sessions = 128

abbrev pub session_lives : ℕ → WebSession → Bool
session_lives now s = leb now s.until_time

abbrev pub ticket_lives : ℕ → Ticket → Bool
ticket_lives now t = leb now t.until_time

unfoldable pub prune : ℕ → Web → Web
unfolding keep
prune now w = record w {
  sessions = keep (session_lives now) w.sessions;
  tickets = keep (ticket_lives now) w.tickets;
}

-- getSession.
unfoldable pub get_session : ℕ → Option ℕ → Web → Option WebSession × Web
unfolding prune lookup
get_session now none w = (none, w)
get_session now (some token) w = (lookup token (prune now w).sessions, prune now w)

pub record PageRequest : Type 0 where
  pub cookie : Option ℕ
  pub same_origin : Bool
  pub form_parses : Bool
  pub csrf : Option ℕ  -- the field of the form

abbrev pub same_csrf : Option ℕ → Option ℕ → Bool
same_csrf none none = true
same_csrf none (some b) = false
same_csrf (some a) none = false
same_csrf (some a) (some b) = a == b

pub data Access : Type 0 where
  to_login invalid_form : Access
  granted : WebSession → Access

abbrev pub check_form : Bool → PageRequest → Option WebSession → Access
check_form post r none = to_login
check_form post r (some s) =
    if post && (not r.same_origin || not r.form_parses || not (same_csrf r.csrf s.csrf))
    then invalid_form
    else granted s

-- authorized.
unfoldable pub authorized : ℕ → Bool → PageRequest → Web → Access × Web
unfolding get_session
authorized now post r w =
    (check_form post r (get_session now r.cookie w).0, (get_session now r.cookie w).1)

-- saveSessions, which writes all of the file or fails and leaves it as it was.
unfoldable pub save_sessions : Bool → ℕ → Web → Bool × Web
save_sessions saved credential w =
    if saved
    then (
      true,
      record w { file = some (record { credential = credential; sessions = w.sessions }) },
    )
    else (false, w)

pub data LoginResult : Type 0 where
  bad_origin too_many bad_credentials session_limit storage_failed : LoginResult
  logged_in : ℕ → LoginResult

-- What the outside decides at a log-in: the two random texts, and whether the file is written.
pub record LoginAttempt : Type 0 where
  pub now : ℕ
  pub same_origin : Bool
  pub form_parses : Bool
  pub username : List ℕ
  pub password : List ℕ
  pub token : ℕ
  pub csrf : ℕ
  pub saved : Bool

-- The first section of the mutex: the window of a minute and the count in it.
abbrev pub count_attempt : ℕ → Web → Web
count_attempt now w =
    if ltb login_window (now - w.window)
    then record w { window = now; attempts = 1 }
    else record w { attempts = w.attempts + 1 }

abbrev pub stored_session : ℕ → Bool × Web → LoginResult × Web
stored_session token (true, w) = (logged_in token, w)
stored_session token (false, w) = (storage_failed, record w { sessions = delete token w.sessions })

-- The second section: the new session, behind the check of the credentials.
unfoldable pub open_session : ℕ → LoginAttempt → Web → LoginResult × Web
unfolding prune insert delete save_sessions
open_session credential a w =
    let kept = prune a.now w in
    if leb max_web_sessions (length kept.sessions)
    then (session_limit, kept)
    else stored_session a.token (
        save_sessions a.saved credential (record kept {
          sessions =
              insert a.token (record { csrf = some a.csrf; until_time = a.now + session_time })
                kept.sessions;
        }))

abbrev pub session_or_zero : Option WebSession → WebSession
session_or_zero none = record { csrf = none; until_time = 0 }
session_or_zero (some s) = s

abbrev pub closed_session : ℕ → WebSession → Bool × Web → Option (Option ℕ) × Web
closed_session token previous (true, w) = (some previous.csrf, w)
closed_session token previous (false, w) =
    (none, record w { sessions = insert token previous w.sessions })

-- login; `username` and `password` are the server's.
module _ (digest : List ℕ → ℕ) (username password : List ℕ) where
  abbrev pub credential_of : List ℕ → List ℕ → ℕ
  credential_of name secret = digest (name ++ (0 ∷ secret))

  abbrev pub credential_id : ℕ
  credential_id = credential_of username password

  unfoldable pub login : LoginAttempt → Web → LoginResult × Web
  unfolding open_session
  login a w =
      if not a.same_origin || not a.form_parses
      then (bad_origin, w)
      else if ltb max_attempts (count_attempt a.now w).attempts
      then (too_many, count_attempt a.now w)
      else if not (credential_of a.username a.password == credential_id)
      then (bad_credentials, count_attempt a.now w)
      else open_session credential_id a (count_attempt a.now w)

  -- logout behind `authorized`: the owner whose captures are stopped, or none when the file was not
  -- written.
  unfoldable pub logout : Bool → ℕ → Web → Option (Option ℕ) × Web
  unfolding lookup insert delete save_sessions
  logout saved token w =
      closed_session token (session_or_zero (lookup token w.sessions))
        (save_sessions saved credential_id (record w { sessions = delete token w.sessions }))

  abbrev pub with_file : ℕ → Option SessionFile → Web → Web
  with_file now none w = w
  with_file now (some f) w =
      if f.credential == credential_id then prune now (record w { sessions = f.sessions }) else w

  -- NewWeb with loadSessions: a new process finds the file.
  unfoldable pub restart : ℕ → Web → Web
  unfolding prune
  restart now w =
      with_file now w.file
        (record { sessions = []; tickets = []; attempts = 0; window = 0; file = w.file })

-- The tickets of a user are dropped.
unfoldable pub drop_tickets : ℕ → Web → Web
unfolding keep
drop_tickets user w = record w { tickets = keep (λ t. not (t.user == user)) w.tickets }

-- qr, behind the look-up of the profile: the user's only ticket.
unfoldable pub draw_ticket : ℕ → ℕ → ℕ → Web → Web
unfolding prune drop_tickets insert
draw_ticket now user token w =
    let kept = drop_tickets user (prune now w) in
    record kept {
      tickets = insert token (record { user = user; until_time = now + ticket_time }) kept.tickets;
    }

pub data Enrolled {ℓ} (A : Type ℓ) : Type ℓ where
  bad_token used_up no_user : Enrolled A
  enrolled : A → Enrolled A

abbrev pub enroll_profile : ℕ → Option Ticket → Store → Enrolled User
enroll_profile now none store = used_up
enroll_profile now (some t) store = elim (profile now t.user store) [
  | ok u ↦ enrolled u
  | err e ↦ no_user
]

-- enroll: a ticket that is found is used up. The token is none where it is not 48 characters long.
unfoldable pub enroll : ℕ → Option ℕ → Store → Web → Enrolled User × Web
unfolding prune lookup delete profile
enroll now none store w = (bad_token, w)
enroll now (some token) store w =
    let kept = prune now w in
    (
      enroll_profile now (lookup token kept.tickets) store,
      record kept {
        tickets =
            if is_some (lookup token kept.tickets) then delete token kept.tickets else kept.tickets;
      },
    )

abbrev pub deleted : ℕ → Option GoError × Store → Web → Option GoError × (Store × Web)
deleted user (some e, store) w = (some e, (store, w))
deleted user (none, store) w = (none, (store, drop_tickets user w))

-- delete, behind `authorized`: the account and its tickets.
unfoldable pub delete_account : Bool → ℕ → Store → Web → Option GoError × (Store × Web)
unfolding delete_user drop_tickets
delete_account saved user store w = deleted user (delete_user saved user store) w

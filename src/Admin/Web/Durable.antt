-- ===== src/Admin/Web/Durable.antt =====
-- internal/admin/web.go and sessions.go: the sessions in memory and those in the file.
use mathlib.Core.Path.{subst}
use quic_lab.Common.{
  ℕ, ◌+◌, ◌-◌, ◌≤◌, ◌≡◌, refl, sym, ap, ◌∙◌, inl, inr, Bool, true, false, not, ◌||◌, Option, none,
  some, List, [], arith, ltb, leb, ◌==◌, if◌then◌else◌, ==_iff, Bool-cases, if_cases, length,
}
use quic_lab.Common.OwnKeys.{
  OwnKeys, insert-OwnKeys, delete-OwnKeys, keep-OwnKeys, passing, lookup-keep-passing,
}
use quic_lab.Common.Maps.{
  lookup, insert, delete, keep, insert_hit, insert_miss, delete_hit, delete_miss, lookup-keep-none,
}
use quic_lab.Admin.Web.{
  WebSession, SessionFile, Web, login_window, session_time, max_attempts, max_web_sessions,
  session_lives, prune, save_sessions, LoginResult, LoginAttempt, count_attempt, stored_session,
  open_session, session_or_zero, credential_of, credential_id, login,
}

-- The session as it counts at a time: none when it has run out.
abbrev pub live_at : ℕ → Option WebSession → Option WebSession
live_at t none = none
live_at t (some s) = if session_lives t s then some s else none

abbrev pub file_sessions : Option SessionFile → List (ℕ × WebSession)
file_sessions none = []
file_sessions (some f) = f.sessions

abbrev pub FileCredential : ℕ → Option SessionFile → Type 0
FileCredential credential none = Unit {0}
FileCredential credential (some f) = f.credential ≡ credential

-- From the time `t` on, memory and file agree on every session that still counts.
abbrev pub Agrees : ℕ → Web → Type 0
Agrees t w =
    (later token : ℕ)
    → t ≤ later
    → live_at later (lookup token w.sessions) ≡ live_at later (lookup token (file_sessions w.file))

-- Whatever counts later is still there behind the removal of what has run out.
pub live-passing :
    (now later : ℕ) (o : Option WebSession)
    → now ≤ later
    → live_at later (passing (session_lives now) o) ≡ live_at later o
live-passing now later none h = refl
live-passing now later (some s) h = ground arith

pub live-keep :
    (now later token : ℕ) (m : List (ℕ × WebSession))
    → OwnKeys m
    → now ≤ later
    → live_at later (lookup token (keep (session_lives now) m)) ≡ live_at later (lookup token m)
live-keep now later token m own h =
    ap (live_at later) (lookup-keep-passing (session_lives now) token m own)
    ∙ live-passing now later (lookup token m) h

live_none :
    (later : ℕ) (o p : Option WebSession)
    → live_at later o ≡ live_at later p
    → o ≡ none
    → live_at later p ≡ none
live_none later o p e n = sym e ∙ ap (live_at later) n

pub record IsWeb (credential t : ℕ) (w : Web) : Type 0 where
  pub own_sessions : OwnKeys w.sessions
  pub own_file : OwnKeys (file_sessions w.file)
  pub same_credential : FileCredential credential w.file
  pub agrees : Agrees t w

pub later-IsWeb :
    (credential t now : ℕ) (w : Web) → t ≤ now → IsWeb credential t w → IsWeb credential now w
later-IsWeb credential t now w h good = record {
  own_sessions = good.own_sessions;
  own_file = good.own_file;
  same_credential = good.same_credential;
  agrees = λ later token le. good.agrees later token (omega (arith, le));
}

pub prune-IsWeb :
    (credential now : ℕ) (w : Web) → IsWeb credential now w → IsWeb credential now (prune now w)
unfolding prune
prune-IsWeb credential now w good = record {
  own_sessions = keep-OwnKeys (session_lives now) w.sessions good.own_sessions;
  own_file = good.own_file;
  same_credential = good.same_credential;
  agrees = λ later token le.
      live-keep now later token w.sessions good.own_sessions le ∙ good.agrees later token le;
}

-- A write that succeeds: the file is what is in memory.
pub written-IsWeb :
    (credential now : ℕ) (w : Web) (m : List (ℕ × WebSession))
    → OwnKeys m
    → IsWeb credential now
        (record w { sessions = m; file = some (record { credential = credential; sessions = m }) })
written-IsWeb credential now w m own = record {
  own_sessions = own;
  own_file = own;
  same_credential = refl;
  agrees = λ later token le. refl;
}

-- The same sessions under each key, up to those that do not count.
pub same-IsWeb :
    (credential now : ℕ) (w : Web) (m : List (ℕ × WebSession))
    → OwnKeys m
    → ((later token : ℕ)
        → now ≤ later
        → live_at later (lookup token m) ≡ live_at later (lookup token w.sessions))
    → IsWeb credential now w
    → IsWeb credential now (record w { sessions = m })
same-IsWeb credential now w m own same good = record {
  own_sessions = own;
  own_file = good.own_file;
  same_credential = good.same_credential;
  agrees = λ later token le. same later token le ∙ good.agrees later token le;
}

undone_insert :
    (k j : ℕ) (v : WebSession) (m : List (ℕ × WebSession))
    → lookup k m ≡ none
    → lookup j (delete k (insert k v m)) ≡ lookup j m
undone_insert k j v m alone = elim (Bool-cases (k == j)) [
  | inl e ↦
      delete_hit k j (insert k v m) e
      ∙ sym (subst (λ i. lookup i m ≡ none) ((==_iff k j).0 e) alone)
  | inr e ↦ delete_miss k j (insert k v m) e ∙ insert_miss k j v m e
]

-- A log-out that is undone puts back what was there, or a session that never counts.
pub undone_delete :
    (k j later : ℕ) (m : List (ℕ × WebSession))
    → 1 ≤ later
    → live_at later (lookup j (insert k (session_or_zero (lookup k m)) (delete k m)))
      ≡ live_at later (lookup j m)
undone_delete k j later m h = elim (Bool-cases (k == j)) [
  | inl e ↦
      ap (live_at later) (insert_hit k j (session_or_zero (lookup k m)) (delete k m) e)
      ∙ (ap (λ i. live_at later (some (session_or_zero (lookup i m)))) ((==_iff k j).0 e)
          ∙ zero_never (lookup j m))
  | inr e ↦
      ap (live_at later)
        (insert_miss k j (session_or_zero (lookup k m)) (delete k m) e ∙ delete_miss k j m e)
]
  where
    zero_never :
        (o : Option WebSession) → live_at later (some (session_or_zero o)) ≡ live_at later o
    zero_never none = ground arith
    zero_never (some s) = refl

module _ (digest : List ℕ → ℕ) (username password : List ℕ) where
  abbrev credential : ℕ
  credential = credential_id digest username password

  open_session-IsWeb :
      (a : LoginAttempt) (w : Web)
      → lookup a.token w.sessions ≡ none
      → IsWeb credential a.now w
      → IsWeb credential a.now (open_session credential a w).1
  unfolding open_session save_sessions
  open_session-IsWeb a w fresh good =
      if_cases P (leb max_web_sessions (length kept.sessions)) _ _ (λ e. kept_good)
        (λ e. written a.saved)
    where
      P : LoginResult × Web → Type 0
      P r = IsWeb credential a.now r.1

      kept : Web
      kept = prune a.now w

      kept_good : IsWeb credential a.now kept
      kept_good = prune-IsWeb credential a.now w good

      new : WebSession
      new = record { csrf = some a.csrf; until_time = a.now + session_time }

      kept_fresh : lookup a.token kept.sessions ≡ none
      kept_fresh = unfold prune in (lookup-keep-none (session_lives a.now) a.token w.sessions fresh)

      with_new : Web
      with_new = record kept { sessions = insert a.token new kept.sessions }

      own_new : OwnKeys with_new.sessions
      own_new = insert-OwnKeys a.token new kept.sessions kept_good.own_sessions

      written :
          (saved : Bool) → P (stored_session a.token (save_sessions saved credential with_new))
      written true = written-IsWeb credential a.now with_new with_new.sessions own_new
      written false =
          same-IsWeb credential a.now kept (delete a.token with_new.sessions)
            (delete-OwnKeys a.token with_new.sessions own_new)
            (λ later token le.
              ap (live_at later) (undone_insert a.token token new kept.sessions kept_fresh))
            kept_good

  counted-IsWeb :
      (now : ℕ) (w : Web) → IsWeb credential now w → IsWeb credential now (count_attempt now w)
  counted-IsWeb now w good =
      if_cases (IsWeb credential now) (ltb login_window (now - w.window)) _ _ (λ e. untouched good)
        (λ e. untouched good)
    where
      untouched :
          {n start : ℕ}
          → IsWeb credential now w
          → IsWeb credential now (record w { attempts = n; window = start })
      untouched good = record {
        own_sessions = good.own_sessions;
        own_file = good.own_file;
        same_credential = good.same_credential;
        agrees = good.agrees;
      }

  pub login-IsWeb :
      (a : LoginAttempt) (w : Web)
      → lookup a.token w.sessions ≡ none
      → IsWeb credential a.now w
      → IsWeb credential a.now (login digest username password a w).1
  unfolding login
  login-IsWeb a w fresh good =
      let counted = counted-IsWeb a.now w good in
      if_cases P (not a.same_origin || not a.form_parses) _ _ (λ e. good)
        (λ e.
          if_cases P (ltb max_attempts (count_attempt a.now w).attempts) _ _ (λ f. counted)
            (λ f.
              if_cases P
                (not (credential_of digest username password a.username a.password == credential)) _
                _ (λ g. counted)
                (λ g. open_session-IsWeb a (count_attempt a.now w) (same_sessions fresh) counted)))
    where
      P : LoginResult × Web → Type 0
      P r = IsWeb credential a.now r.1

      same_sessions :
          lookup a.token w.sessions ≡ none → lookup a.token (count_attempt a.now w).sessions ≡ none
      same_sessions h =
          if_cases (λ (v : Web). lookup a.token v.sessions ≡ none)
            (ltb login_window (a.now - w.window)) _ _ (λ e. h) (λ e. h)

-- ===== src/DebugCapture/Bounds.antt =====
-- internal/debugcapture/capture.go: what a session may hold, and how often it is handed out.
use quic_lab.Common.{
  ℕ, ◌+◌, ◌≤◌, String, ◌≡◌, refl, ◌⊎◌, true, false, not, ◌||◌, Option, List, [], ◌∷◌, ◌++◌, arith,
  ltb, if◌then◌else◌, if_cases, length, length-append,
}
use quic_lab.DebugCapture.{secrets}
use quic_lab.DebugCapture.Session.{
  max_bytes, max_key_bytes, is_running, Session, emit, write_keys, stop, make_ticket, redeem_ticket,
  attach_token, make_enrollment, enroll_token, log_out,
}

abbrev pub total_size : List (List ℕ) → ℕ
total_size [] = 0
total_size (b ∷ bs) = length b + total_size bs

-- The counters are right and the limits hold.
abbrev pub IsSession : Session → Type 0
IsSession s =
    (s.bytes ≡ total_size s.blocks)
    × (length s.times ≡ length s.blocks)
    × (s.bytes ≤ max_bytes)
    × (length s.key_lines ≤ max_key_bytes)
    × ((is_running s.state ≡ true) ⊎ (s.cancelled ≡ true))

total_size-append :
    (bs : List (List ℕ)) (b : List ℕ) → total_size (bs ++ (b ∷ [])) ≡ total_size bs + length b
total_size-append [] b = omega arith
total_size-append (c ∷ bs) b = omega (arith, total_size-append bs b)

-- A call or an event at one session. `handed` counts how often Attach gave it out.
pub data SessionStep (s : Session) (handed : ℕ) : Session → ℕ → Type 0 where
  emits : (now : ℕ) (b : List ℕ) → SessionStep s handed (emit now b s).1 handed
  writes : (now : ℕ) (p : List ℕ) → SessionStep s handed (write_keys now p s).1 handed
  stops : (reason : String) → SessionStep s handed (stop reason s) handed
  asks_ticket : (now fresh : ℕ) → SessionStep s handed (make_ticket now fresh s).1 handed
  redeems :
      (now fresh : ℕ) (ticket : Option ℕ)
      → SessionStep s handed (redeem_ticket now ticket fresh s).1 handed
  attaches :
      (token : Option ℕ)
      → SessionStep s handed
          (attach_token token s).1
          (if (attach_token token s).0 then handed + 1 else handed)
  asks_enrollment : (now fresh : ℕ) → SessionStep s handed (make_enrollment now fresh s).1 handed
  enrolls : (now token : ℕ) → SessionStep s handed (enroll_token now token s).1 handed
  logs_out : SessionStep s handed (log_out s) handed

pub data SessionReach (s : Session) (handed : ℕ) : Session → ℕ → Type 0 where
  unchanged : SessionReach s handed s handed
  one_more :
      {t u : Session} {n k : ℕ}
      → SessionReach s handed t n
      → SessionStep t n u k
      → SessionReach s handed u k

-- A session is handed out at most once, and then it is connected.
abbrev pub IsHanded : Session → ℕ → Type 0
IsHanded s handed = handed ≡ (if s.connected then 1 else 0)

pub emit-good :
    (now : ℕ) (b : List ℕ) (s : Session) (handed : ℕ)
    → IsSession s × IsHanded s handed
    → IsSession (emit now b s).1 × IsHanded (emit now b s).1 handed
unfolding emit
emit-good now b s handed good = ground (
  arith,
  total_size-append s.blocks b,
  length-append s.times (now ∷ []),
  length-append s.blocks (b ∷ []),
)

write_keys-good :
    (now : ℕ) (p : List ℕ) (s : Session) (handed : ℕ)
    → IsSession s × IsHanded s handed
    → IsSession (write_keys now p s).1 × IsHanded (write_keys now p s).1 handed
unfolding write_keys
write_keys-good now p s handed good =
    if_cases (λ (r : ℕ × Session). IsSession r.1 × IsHanded r.1 handed)
      (not (is_running s.state) || ltb max_key_bytes (length s.key_lines + length p)) _ _
      (λ e. good)
      (λ e.
        emit-good now (secrets p) (record s { key_lines = s.key_lines ++ p }) handed
          (ground (arith, length-append s.key_lines p)))

-- What every step keeps: the blocks and keys that the reader sees only grow.
abbrev pub IsGood : Session → ℕ → Type 0
IsGood s handed = IsSession s × IsHanded s handed

pub SessionStep-IsGood : {s t : Session} {n k : ℕ} → SessionStep s n t k → IsGood s n → IsGood t k
unfolding stop make_ticket redeem_ticket attach_token make_enrollment enroll_token log_out
SessionStep-IsGood {s} {n} (emits now b) good = emit-good now b s n good
SessionStep-IsGood {s} {n} (writes now p) good = write_keys-good now p s n good
SessionStep-IsGood {s} {n} (stops reason) good = ground arith
SessionStep-IsGood {s} {n} (asks_ticket now fresh) good = ground arith
SessionStep-IsGood {s} {n} (redeems now fresh ticket) good = ground arith
SessionStep-IsGood {s} {n} (attaches token) good = ground arith
SessionStep-IsGood {s} {n} (asks_enrollment now fresh) good = ground arith
SessionStep-IsGood {s} {n} (enrolls now token) good = ground arith
SessionStep-IsGood {s} {n} logs_out good = ground arith

-- Take a session whose byte counter is the size of its blocks, with a time for each block, at most
-- 32 MiB of blocks and 1 MiB of keys, which is running or was cancelled, and which was handed out
-- once if it is connected and never if it is not. This stays so over any sequence of captured
-- blocks, TLS secrets, tickets, redemptions, attachments, enrollments and stops; in particular
-- Attach never hands a session out twice.
pub SessionReach-IsGood :
    {s : Session} {n : ℕ} {t : Session} {k : ℕ} → IsGood s n → SessionReach s n t k → IsGood t k
SessionReach-IsGood good unchanged = good
SessionReach-IsGood good (one_more r step) = SessionStep-IsGood step (SessionReach-IsGood good r)

-- A session that ended stays as it was: nothing that came later is in its blocks or its keys.
abbrev pub IsOver : Session → Session → Type 0
IsOver s t = (is_running t.state ≡ false) × (t.blocks ≡ s.blocks) × (t.key_lines ≡ s.key_lines)

pub SessionStep-IsOver :
    (s : Session) {t u : Session} {n k : ℕ} → SessionStep t n u k → IsOver s t → IsOver s u
unfolding emit write_keys stop make_ticket redeem_ticket attach_token make_enrollment enroll_token
    log_out
SessionStep-IsOver s (emits now b) over = ground arith
SessionStep-IsOver s (writes now p) over = ground arith
SessionStep-IsOver s (stops reason) over = ground arith
SessionStep-IsOver s (asks_ticket now fresh) over = ground arith
SessionStep-IsOver s (redeems now fresh ticket) over = ground arith
SessionStep-IsOver s (attaches token) over = ground arith
SessionStep-IsOver s (asks_enrollment now fresh) over = ground arith
SessionStep-IsOver s (enrolls now token) over = ground arith
SessionStep-IsOver s logs_out over = ground arith

-- Once a session has ended it never runs again, and no step adds to its blocks or its keys.
pub SessionReach-IsOver :
    {s : Session} {n : ℕ} {t : Session} {k : ℕ}
    → is_running s.state ≡ false
    → SessionReach s n t k
    → IsOver s t
SessionReach-IsOver h unchanged = (h, refl, refl)
SessionReach-IsOver {s} h (one_more r step) = SessionStep-IsOver s step (SessionReach-IsOver h r)

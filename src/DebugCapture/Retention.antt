-- ===== src/DebugCapture/Retention.antt =====
-- internal/debugcapture/capture.go: what steps of sessions and changes of the table do to listeners.
use quic_lab.Common.{
  ℕ, zero, suc, ◌+◌, ◌≤◌, ◌≡◌, refl, sym, ◌∙◌, ◌≢◌, ◌⊎◌, inl, inr, Bool, true, false, ◌&&◌, List,
  [], ◌∷◌, arith, ◌==◌, Bool-cases, length,
}
use quic_lab.Common.Maps.{insert, delete, keep, length-insert}
use quic_lab.DebugCapture.Session.{
  is_running, Kind, Session, emit, write_keys, stop, make_ticket, redeem_ticket, attach_token,
  make_enrollment, enroll_token, log_out,
}
use quic_lab.DebugCapture.Manager.{
  Manager, is_busy, free_port, count_running, Launch, new_session, emit_all,
}
use quic_lab.DebugCapture.Bounds.{
  IsSession, SessionStep, SessionStep-IsGood, SessionStep-IsOver, emits, writes, stops, asks_ticket,
  redeems, attaches, asks_enrollment, enrolls, logs_out,
}
use quic_lab.DebugCapture.Listeners.{
  handed_out, HaveOwnPorts, IsManager, Follows, AllFollow, Follows-refl, AllFollow-kept,
  AllFollow-HaveOwnPorts,
}

SessionStep-port : {s t : Session} {n k : ℕ} → SessionStep s n t k → t.port ≡ s.port
unfolding emit write_keys stop make_ticket redeem_ticket attach_token make_enrollment enroll_token
    log_out
SessionStep-port (emits now b) = ground arith
SessionStep-port (writes now p) = ground arith
SessionStep-port (stops reason) = ground arith
SessionStep-port (asks_ticket now fresh) = ground arith
SessionStep-port (redeems now fresh ticket) = ground arith
SessionStep-port (attaches token) = ground arith
SessionStep-port (asks_enrollment now fresh) = ground arith
SessionStep-port (enrolls now token) = ground arith
SessionStep-port logs_out = ground arith

pub SessionStep-Follows : {s t : Session} {k : ℕ} → SessionStep s (handed_out s) t k → Follows s t
unfolding Follows
SessionStep-Follows {s} {t} step = (
  λ good. (SessionStep-IsGood step (good, refl)).0,
  λ h. elim (Bool-cases (is_running s.state)) [
    | inl e ↦ e
    | inr e ↦
        let (over, same_blocks, same_keys) = SessionStep-IsOver s step (e, refl, refl) in
        absurd (let bad : false ≡ true = sym over ∙ h in cc)
  ],
  SessionStep-port step,
)

pub AllFollow-IsManager :
    (m : Manager) (sessions : List (ℕ × Session)) (closing : Bool)
    → AllFollow m.sessions sessions
    → IsManager m
    → IsManager (record m { sessions = sessions; closing = closing })
AllFollow-IsManager m sessions closing f (few, good, slots, own) =
    let (size, all_good, fewer) = AllFollow-kept m.sessions sessions f in
    (
      omega (arith, size, few),
      all_good good,
      λ h. omega (arith, slots h, fewer),
      λ ne. AllFollow-HaveOwnPorts m.sessions sessions f (own ne),
    )

pub count_running-delete :
    (id : ℕ) (m : List (ℕ × Session)) → count_running (delete id m) ≤ count_running m
unfolding delete
count_running-delete id [] = omega arith
count_running-delete id ((j, s) ∷ m) = ground (arith, count_running-delete id m)

pub count_running-keep :
    (test : Session → Bool) (m : List (ℕ × Session)) → count_running (keep test m) ≤ count_running m
unfolding keep
count_running-keep test [] = omega arith
count_running-keep test ((j, s) ∷ m) = ground (arith, count_running-keep test m)

pub count_running-insert :
    (id : ℕ) (s : Session) (m : List (ℕ × Session))
    → count_running (insert id s m) ≤ suc (count_running m)
unfolding insert
count_running-insert id s [] = ground arith
count_running-insert id s ((j, r) ∷ m) = ground (arith, count_running-insert id s m)

pub length-insert_le :
    (id : ℕ) (s : Session) (m : List (ℕ × Session)) → length (insert id s m) ≤ suc (length m)
length-insert_le id s m = ground (arith, length-insert id s m)

pub free_port-free :
    (left port : ℕ) (m : List (ℕ × Session))
    → (free_port left port m ≡ 0) ⊎ (is_busy (free_port left port m) m ≡ false)
unfolding free_port
free_port-free zero port m = inl refl
free_port-free (suc left) port m = elim (Bool-cases (is_busy port m)) [
  | inl e ↦ rw e (free_port-free left (port + 1) m)
  | inr e ↦ rw e (inr e)
]

delete-is_busy :
    (port id : ℕ) (m : List (ℕ × Session))
    → is_busy port m ≡ false
    → is_busy port (delete id m) ≡ false
unfolding delete
delete-is_busy port id [] h = refl
delete-is_busy port id ((j, s) ∷ m) h = ground (arith, delete-is_busy port id m)

keep-is_busy :
    (port : ℕ) (test : Session → Bool) (m : List (ℕ × Session))
    → is_busy port m ≡ false
    → is_busy port (keep test m) ≡ false
unfolding keep
keep-is_busy port test [] h = refl
keep-is_busy port test ((j, s) ∷ m) h = ground (arith, keep-is_busy port test m)

insert-is_busy :
    (port id : ℕ) (s : Session) (m : List (ℕ × Session))
    → (is_running s.state && s.port == port) ≡ false
    → is_busy port m ≡ false
    → is_busy port (insert id s m) ≡ false
unfolding insert
insert-is_busy port id s [] k h = ground arith
insert-is_busy port id s ((j, r) ∷ m) k h = ground (arith, insert-is_busy port id s m)

pub delete-HaveOwnPorts :
    (id : ℕ) (m : List (ℕ × Session)) → HaveOwnPorts m → HaveOwnPorts (delete id m)
unfolding delete
delete-HaveOwnPorts id [] h = tt
delete-HaveOwnPorts id ((j, s) ∷ m) (own, rest) = elim (Bool-cases (j == id)) [
  | inl e ↦ rw e (delete-HaveOwnPorts id m rest)
  | inr e ↦ rw e ((λ r ne. delete-is_busy s.port id m (own r ne)), delete-HaveOwnPorts id m rest)
]

pub keep-HaveOwnPorts :
    (test : Session → Bool) (m : List (ℕ × Session)) → HaveOwnPorts m → HaveOwnPorts (keep test m)
unfolding keep
keep-HaveOwnPorts test [] h = tt
keep-HaveOwnPorts test ((j, s) ∷ m) (own, rest) = elim (Bool-cases (test s)) [
  | inl e ↦ rw e ((λ r ne. keep-is_busy s.port test m (own r ne)), keep-HaveOwnPorts test m rest)
  | inr e ↦ rw e (keep-HaveOwnPorts test m rest)
]

pub insert-HaveOwnPorts :
    (id : ℕ) (s : Session) (m : List (ℕ × Session))
    → (s.port ≢ 0 → is_busy s.port m ≡ false)
    → HaveOwnPorts m
    → HaveOwnPorts (insert id s m)
unfolding insert
insert-HaveOwnPorts id s [] free h = ((λ r ne. refl), tt)
insert-HaveOwnPorts id s ((j, t) ∷ m) free (own, rest) = elim (Bool-cases (j == id)) [
  | inl e ↦ rw e ((λ r ne. ground (arith, free ne)), rest)
  | inr e ↦ rw e (
    (λ r ne. insert-is_busy t.port id s m (other_port r ne) (own r ne)),
    insert-HaveOwnPorts id s m (λ ne. ground (arith, free ne)) rest,
  )
]
  where
    other_port :
        is_running t.state ≡ true → t.port ≢ 0 → (is_running s.state && s.port == t.port) ≡ false
    other_port r ne = elim (Bool-cases (s.port == 0)) [
      | inl z ↦ ground arith
      | inr z ↦ ground (arith, free (ground arith))
    ]

pub Follows-trans : (s t u : Session) → Follows s t → Follows t u → Follows s u
unfolding Follows
Follows-trans s t u (a, b, c) (a', b', c') = (λ h. a' (a h), λ h. b (b' h), c' ∙ c)

pub emit_all-Follows : (now : ℕ) (bs : List (List ℕ)) (s : Session) → Follows s (emit_all now bs s)
unfolding emit_all
emit_all-Follows now [] s = Follows-refl s
emit_all-Follows now (b ∷ bs) s =
    Follows-trans s (emit now b s).1 (emit_all now bs (emit now b s).1)
      (SessionStep-Follows {k = handed_out s} (emits now b))
      (emit_all-Follows now bs (emit now b s).1)

pub new_session-IsSession :
    (out : Launch) (owner : ℕ) (kind : Kind) (ports : ℕ × ℕ)
    → IsSession (new_session out owner kind ports)
new_session-IsSession out owner kind (udp, tcp) = (refl, refl, omega arith, omega arith, inl refl)

-- ===== src/DebugCapture/Users/Single.antt =====
-- internal/debugcapture/user.go: no two running captures of one user, as a property of the table.
use mathlib.Core.Path.{subst}
use quic_lab.Common.{
  ℕ, String, ◌≡◌, refl, sym, ◌∙◌, inl, inr, Bool, true, false, ◌&&◌, ◌||◌, Option, none, some, List,
  [], ◌∷◌, arith, ◌==◌, if◌then◌else◌, Bool-cases, is_some, if_cases,
}
use quic_lab.Common.Maps.{lookup, insert, delete, keep}
use quic_lab.DebugCapture.Session.{is_running, Session, stop, same_text, log_out}
use quic_lab.DebugCapture.Manager.{stop_owner, stop_all, close_manager}
use quic_lab.DebugCapture.Users.{stop_user}

-- Some running session is the capture of the user.
abbrev pub is_captured : Option ℕ → List (ℕ × Session) → Bool
is_captured user [] = false
is_captured user ((id, s) ∷ m) =
    (is_running s.state && is_some user && same_text s.user user) || is_captured user m

abbrev pub IsSingle : List (ℕ × Session) → Type 0
IsSingle [] = Unit {0}
IsSingle ((id, s) ∷ m) = (is_running s.state ≡ true → is_captured s.user m ≡ false) × IsSingle m

-- `t` runs only if `s` did, for the same user.
unfoldable pub Inherits : Session → Session → Type 0
Inherits s t = (is_running t.state ≡ true → is_running s.state ≡ true) × (t.user ≡ s.user)

pub Inherits-refl : (s : Session) → Inherits s s
unfolding Inherits
Inherits-refl s = (λ h. h, refl)

pub Inherits-trans : (s t u : Session) → Inherits s t → Inherits t u → Inherits s u
unfolding Inherits
Inherits-trans s t u (a, b) (a', b') = (λ h. a (a' h), b' ∙ b)

-- The second table holds what some sessions of the first have become, in order.
pub data Thins : List (ℕ × Session) → List (ℕ × Session) → Type 0 where
  nothing_left : (m : List (ℕ × Session)) → Thins m []
  drops : (e : ℕ × Session) (m n : List (ℕ × Session)) → Thins m n → Thins (e ∷ m) n
  turns :
      (i j : ℕ) (s t : Session) (m n : List (ℕ × Session))
      → Inherits s t
      → Thins m n
      → Thins ((i, s) ∷ m) ((j, t) ∷ n)

pub Thins-refl : (m : List (ℕ × Session)) → Thins m m
Thins-refl [] = nothing_left []
Thins-refl ((i, s) ∷ m) = turns i i s s m m (Inherits-refl s) (Thins-refl m)

Thins-is_captured :
    (user : Option ℕ) {m n : List (ℕ × Session)}
    → Thins m n
    → is_captured user m ≡ false
    → is_captured user n ≡ false
unfolding Inherits
Thins-is_captured user (nothing_left m) h = refl
Thins-is_captured user (drops e m n thins) h = Thins-is_captured user thins (ground arith)
Thins-is_captured user (turns i j s t m n (runs, same_user) thins) h =
    ground (arith, Thins-is_captured user thins)

pub Thins-IsSingle : {m n : List (ℕ × Session)} → Thins m n → IsSingle m → IsSingle n
unfolding Inherits
Thins-IsSingle (nothing_left m) h = tt
Thins-IsSingle (drops e m n thins) h = Thins-IsSingle thins h.1
Thins-IsSingle (turns i j s t m n (runs, same_user) thins) (own, rest) =
    (λ r. rw same_user (Thins-is_captured s.user thins (own (runs r))), Thins-IsSingle thins rest)

pub insert-Thins :
    (id : ℕ) (s t : Session) (m : List (ℕ × Session))
    → lookup id m ≡ some s
    → Inherits s t
    → Thins m (insert id t m)
unfolding lookup insert
insert-Thins id s t [] h f = cc
insert-Thins id s t ((j, r) ∷ m) h f = elim (Bool-cases (j == id)) [
  | inl e ↦
      let this : r ≡ s = (let found : some r ≡ some s = rw e at h in cc) in
      rw e
        (turns j id r t m m (subst (λ x. Inherits x t) {x = s} {y = r} (sym this) f) (Thins-refl m))
  | inr e ↦
      rw e (turns j j r r m (insert id t m) (Inherits-refl r) (insert-Thins id s t m (rw e at h) f))
]

pub delete-Thins : (id : ℕ) (m : List (ℕ × Session)) → Thins m (delete id m)
unfolding delete
delete-Thins id [] = nothing_left []
delete-Thins id ((j, s) ∷ m) = elim (Bool-cases (j == id)) [
  | inl e ↦ rw e (drops (j, s) m (delete id m) (delete-Thins id m))
  | inr e ↦ rw e (turns j j s s m (delete id m) (Inherits-refl s) (delete-Thins id m))
]

pub keep-Thins : (test : Session → Bool) (m : List (ℕ × Session)) → Thins m (keep test m)
unfolding keep
keep-Thins test [] = nothing_left []
keep-Thins test ((j, s) ∷ m) = elim (Bool-cases (test s)) [
  | inl e ↦ rw e (turns j j s s m (keep test m) (Inherits-refl s) (keep-Thins test m))
  | inr e ↦ rw e (drops (j, s) m (keep test m) (keep-Thins test m))
]

stop-Inherits : (reason : String) (s : Session) → Inherits s (stop reason s)
unfolding Inherits stop
stop-Inherits reason s = (λ h. ground arith, refl)

log_out-Inherits : (s : Session) → Inherits s (log_out s)
unfolding Inherits log_out stop
log_out-Inherits s = (λ h. ground arith, refl)

pub stop_all-Thins : (m : List (ℕ × Session)) → Thins m (stop_all m)
unfolding close_manager
stop_all-Thins [] = nothing_left []
stop_all-Thins ((i, s) ∷ m) =
    turns i i s (stop "server stopped" s) m (stop_all m) (stop-Inherits "server stopped" s)
      (stop_all-Thins m)

pub stop_owner-Thins : (owner : ℕ) (m : List (ℕ × Session)) → Thins m (stop_owner owner m)
unfolding stop_owner
stop_owner-Thins owner [] = nothing_left []
stop_owner-Thins owner ((i, s) ∷ m) =
    turns i i s (if s.owner == owner then log_out s else s) m (stop_owner owner m)
      (if_cases (Inherits s) (s.owner == owner) (log_out s) s (λ e. log_out-Inherits s)
        (λ e. Inherits-refl s))
      (stop_owner-Thins owner m)

pub stop_user-Thins : (user : ℕ) (m : List (ℕ × Session)) → Thins m (stop_user user m)
unfolding stop_user
stop_user-Thins user [] = nothing_left []
stop_user-Thins user ((i, s) ∷ m) =
    turns i i s (if same_text s.user (some user) then stop "user revoked" s else s) m
      (stop_user user m)
      (if_cases (Inherits s) (same_text s.user (some user)) (stop "user revoked" s) s
        (λ e. stop-Inherits "user revoked" s) (λ e. Inherits-refl s))
      (stop_user-Thins user m)

insert-is_captured :
    (user : Option ℕ) (id : ℕ) (s : Session) (m : List (ℕ × Session))
    → (is_running s.state && is_some user && same_text s.user user) ≡ false
    → is_captured user m ≡ false
    → is_captured user (insert id s m) ≡ false
unfolding insert
insert-is_captured user id s [] k h = ground arith
insert-is_captured user id s ((j, r) ∷ m) k h = ground (arith, insert-is_captured user id s m)

same_text-sym : (a b : Option ℕ) → same_text a b ≡ same_text b a
same_text-sym none none = refl
same_text-sym none (some b) = refl
same_text-sym (some a) none = refl
same_text-sym (some a) (some b) = ground arith

same_text-some : (a b : Option ℕ) → same_text a b ≡ true → is_some a ≡ is_some b
same_text-some none none h = refl
same_text-some none (some b) h = absurd (let bad : false ≡ true = h in cc)
same_text-some (some a) none h = absurd (let bad : false ≡ true = h in cc)
same_text-some (some a) (some b) h = refl

-- A session whose user has no running capture may be stored.
pub insert-IsSingle :
    (id : ℕ) (s : Session) (m : List (ℕ × Session))
    → is_captured s.user m ≡ false
    → IsSingle m
    → IsSingle (insert id s m)
unfolding insert
insert-IsSingle id s [] free h = ((λ r. refl), tt)
insert-IsSingle id s ((j, t) ∷ m) free (own, rest) = elim (Bool-cases (j == id)) [
  | inl e ↦ rw e ((λ r. ground arith), rest)
  | inr e ↦ rw e (
    (λ r.
        insert-is_captured t.user id s m
          (ground (arith, same_text-sym s.user t.user, same_text-some s.user t.user)) (own r)),
    insert-IsSingle id s m (ground arith) rest,
  )
]

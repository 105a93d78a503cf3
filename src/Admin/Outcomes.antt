-- ===== src/Admin/Outcomes.antt =====
-- internal/admin/store.go: what Create can do to the store.
use quic_lab.Common.{
  ℕ, ◌≡◌, refl, false, not, ◌||◌, Option, none, some, List, ◌++◌, ltb, leb, if_cases, length,
  Result, err, ok,
}
use quic_lab.Admin.{User, Store, provision_awg}
use quic_lab.Admin.Provisioning.{provision_awg-SameUser}
use quic_lab.Admin.Accounts.{
  max_users, bad_name, name_taken, Issuing, blank_user, add_user, issue, clip, certify_user, create,
}

-- A predicate holds after Create if it holds before and after the new account was added, or added
-- and taken out again.
pub create-cases :
    (P : Store → Type 0) (out : Issuing) (name : List ℕ) (protocols : Option (List (List ℕ)))
    (s : Store)
    → P s
    → ((new : User) → new.id ≡ out.id → new.disabled ≡ false → P (add_user out.saved new s).1)
    → P (create out name protocols s).1
unfolding create
create-cases P out name protocols s before added =
    if_cases Q (bad_name name) _ _ (λ e. before)
      (λ named.
        if_cases Q (leb max_users (length s.users)) _ _ (λ e. before)
          (λ room.
            if_cases Q (name_taken none name s.users) _ _ (λ e. before)
              (λ free.
                if_cases Q (not out.key_made || not out.serial_made) _ _ (λ e. before)
                  (λ e. go (provision_awg s out.keys (blank_user out name protocols)) refl))))
  where
    Q : Result User × Store → Type 0
    Q r = P r.1

    issued :
        (new : User) (der key : Option (List ℕ))
        → new.id ≡ out.id
        → new.disabled ≡ false
        → P (issue out new der key s).1
    issued new none key same_id on = before
    issued new (some der) none same_id on = before
    issued new (some der) (some key) same_id on =
        added (record new { certificate = der ++ s.ca_text; key = key }) same_id on

    go :
        (r : Result User)
        → provision_awg s out.keys (blank_user out name protocols) ≡ r
        → P (certify_user out r s).1
    go (err e) made = before
    go (ok new) made =
        let (same_id, on, others) =
          provision_awg-SameUser s out.keys (blank_user out name protocols) new made in
        if_cases Q (not (ltb out.now (clip s.ca_expires new).expires)) _ _ (λ e. before)
          (λ e. issued (clip s.ca_expires new) _ _ same_id on)

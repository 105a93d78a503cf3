-- ===== src/Admin/RevocationReach.antt =====
-- internal/admin/store.go and protocols.go: revocation over any sequence of operations.
use quic_lab.Common.{
  ◌≡◌, refl, sym, ap, ◌∙◌, inl, inr, Bool, true, false, none, some, ◌==◌, ==_iff, Bool-cases,
}
use quic_lab.Common.Maps.{lookup, insert, delete, insert_miss, insert-cases}
use quic_lab.Admin.{User, Store}
use quic_lab.Admin.Accounts.{add_user, rename, entries, delete_user, set_protocols}
use quic_lab.Admin.Sessions.{Crypto, allowed, register_protocol}
use quic_lab.Admin.Steps.{
  StoreStep, Reach, creates, renames, deletes, changes, registers, releases, begins, goes_on,
}
use quic_lab.Admin.Outcomes.{create-cases}
use quic_lab.Admin.Durability.{lookup-take_out}
use quic_lab.Admin.Revocation.{IsRevoked, same_users-IsRevoked}
use quic_lab.Admin.RevocationSteps.{
  no_entry, delete_found-IsRevoked, rename_found-IsRevoked, change_found-IsRevoked,
}
use quic_lab.Admin.RevocationSessions.{allowed-LetsIn, admit-IsRevoked, release-IsRevoked}

add_user-IsRevoked :
    (saved : Bool) (u : User) (s : Store)
    → lookup u.id s.users ≡ none
    → lookup u.id s.active ≡ none
    → IsRevoked s
    → IsRevoked (add_user saved u s).1
add_user-IsRevoked false u s new idle good =
    same_users-IsRevoked (delete u.id (insert u.id u s.users)) s
      (λ k. lookup-take_out u.id k u s.users new) good
add_user-IsRevoked true u s new idle (has_keys, covers) = (
  λ i. λ v. λ h. elim (insert-cases u.id i u v s.users h) [
    | inl (e, same_user) ↦ sym (ap (λ (x : User). x.id) same_user) ∙ e
    | inr (ne, h') ↦ has_keys i v h'
  ],
  λ i. λ token. λ connection. λ h. elim (Bool-cases (u.id == i)) [
    | inl e ↦
        let empty =
          ap (λ o. lookup token (entries o))
            (ap (λ x. lookup x s.active) (sym ((==_iff u.id i).0 e)) ∙ idle)
          ∙ no_entry token in
        absurd (let bad : none ≡ some connection = sym empty ∙ h in cc)
    | inr e ↦ elim (covers i token connection h) [
      | inl closed ↦ inl closed
      | inr good ↦ inr (rw (insert_miss u.id i u s.users e) good)
    ]
  ],
)

Step-IsRevoked : {c : Crypto} {s t : Store} → StoreStep c s t → IsRevoked s → IsRevoked t
unfolding register_protocol rename delete_user set_protocols
Step-IsRevoked {s} (creates out name protocols new idle) good =
    create-cases IsRevoked out name protocols s good (λ u. λ same_id. λ on.
      add_user-IsRevoked out.saved u s (ap (λ x. lookup x s.users) same_id ∙ new)
        (ap (λ x. lookup x s.active) same_id ∙ idle) good)
Step-IsRevoked {s} (renames saved id name) good =
    rename_found-IsRevoked saved id name (lookup id s.users) s refl good
Step-IsRevoked {s} (deletes saved id) good =
    delete_found-IsRevoked saved id (lookup id s.users) s refl good
Step-IsRevoked {s} (changes saved keys id protocols disabled) good =
    change_found-IsRevoked saved keys id protocols disabled (lookup id s.users) s refl good
Step-IsRevoked {c} {s} (registers now cs protocol token connection fresh) good =
    admit-IsRevoked protocol token connection (allowed c now cs s) s
      (allowed-LetsIn c now cs s good.0) fresh good
Step-IsRevoked {s} (releases id token own) good = release-IsRevoked id token s own good

-- Take a store whose accounts stand under their own IDs and each of whose live sessions had its
-- closer called or belongs to an account that is there, is not disabled and has the session's
-- protocol. All of this holds after any sequence of Create, Rename, Delete, SetProtocols,
-- RegisterProtocol and releases: when an account is deleted, disabled or loses a protocol, the
-- closer of each session that this concerns is called.
pub Reach-IsRevoked : {c : Crypto} {s t : Store} → IsRevoked s → Reach c s t → IsRevoked t
Reach-IsRevoked good begins = good
Reach-IsRevoked good (goes_on r step) = Step-IsRevoked step (Reach-IsRevoked good r)

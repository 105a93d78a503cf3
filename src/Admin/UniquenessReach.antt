-- ===== src/Admin/UniquenessReach.antt =====
-- internal/admin/store.go and protocols.go: names and addresses over any sequence of operations.
use quic_lab.Common.{
  ℕ, ◌<◌, ◌≡◌, refl, Bool, true, false, not, ◌||◌, Option, none, some, List, ◌++◌, arith, ltb, leb,
  ◌==◌, if_cases, length, Result, err, ok,
}
use quic_lab.Common.Maps.{lookup, insert, delete}
use quic_lab.Net.{Prefix}
use quic_lab.Admin.{User, Store, Keys, provision_awg}
use quic_lab.Admin.Provisioning.{Provisioned, provision_awg-Provisioned}
use quic_lab.Admin.Accounts.{
  max_users, bad_name, name_taken, Issuing, blank_user, add_user, issue, clip, certify_user, create,
  replace_user, close_refused, store_provisioned, change, change_found, set_protocols,
}
use quic_lab.Admin.Sessions.{
  Crypto, allowed, user_allows, admit, register_protocol, drop_token, release, release_protocol,
}
use quic_lab.Admin.Steps.{
  StoreStep, Reach, creates, renames, deletes, changes, registers, releases, begins, goes_on,
}
use quic_lab.Admin.Uniqueness.{IsAccount, Differ, IsStore, insert-IsAccounts, untaken, not_same}
use quic_lab.Admin.UniquenessSteps.{
  Provisioned-IsAccount, Provisioned-Differ, length-replace, length-add, restore-IsAccounts,
  delete-IsAccounts, rename-IsStore, delete_user-IsStore,
}

set_protocols-IsStore :
    (p : Prefix) (saved : Bool) (keys : Keys) (id : ℕ) (protocols : List (List ℕ)) (disabled : Bool)
    (s : Store)
    → IsStore p s
    → IsStore p (set_protocols saved keys id protocols disabled s).1
unfolding set_protocols
set_protocols-IsStore p saved keys id protocols disabled s (pool, (bound, each, pairs)) =
    look (lookup id s.users) refl
  where
    written :
        (saved : Bool) (old new : User)
        → lookup id s.users ≡ some old
        → Provisioned p s.users (change protocols disabled old) new
        → IsStore p (close_refused disabled id new (replace_user saved id old new s)).1
    written false old new found made =
        (pool, restore-IsAccounts p id old new s.users found (bound, each, pairs))
    written true old new found made = (
      pool,
      insert-IsAccounts p id new s.users (omega (arith, length-replace id old new s.users found))
          (Provisioned-IsAccount p s.users (change protocols disabled old) new (each id old found)
            made)
          (λ j. λ v. λ h. λ ne.
            Provisioned-Differ p s.users (change protocols disabled old) new v j h
              (pairs id j old v found h ne) made)
          (bound, each, pairs),
    )

    go :
        (old : User)
        → lookup id s.users ≡ some old
        → (r : Result User) → provision_awg s keys (change protocols disabled old) ≡ r
        → IsStore p (store_provisioned saved id old disabled r s).1
    go old found (err f) made = (pool, (bound, each, pairs))
    go old found (ok new) made =
        written saved old new found
          (provision_awg-Provisioned p s keys (change protocols disabled old) new pool made)

    look :
        (o : Option User)
        → lookup id s.users ≡ o
        → IsStore p (change_found saved keys id protocols disabled o s).1
    look none found = (pool, (bound, each, pairs))
    look (some old) found = go old found (provision_awg s keys (change protocols disabled old)) refl

create-IsStore :
    (p : Prefix) (out : Issuing) (name : List ℕ) (protocols : Option (List (List ℕ))) (s : Store)
    → IsStore p s
    → IsStore p (create out name protocols s).1
unfolding create
create-IsStore p out name protocols s (pool, (bound, each, pairs)) =
    let same_store : IsStore p s = (pool, (bound, each, pairs)) in
    if_cases (λ (r : Result User × Store). IsStore p r.1) (bad_name name) _ _ (λ e. same_store)
      (λ named.
        if_cases (λ (r : Result User × Store). IsStore p r.1) (leb max_users (length s.users)) _ _
          (λ e. same_store)
          (λ room.
            if_cases (λ (r : Result User × Store). IsStore p r.1) (name_taken none name s.users) _ _
              (λ e. same_store)
              (λ free.
                if_cases (λ (r : Result User × Store). IsStore p r.1)
                  (not out.key_made || not out.serial_made) _ _ (λ e. same_store)
                  (λ e. go named (ground arith) free (provision_awg s out.keys base) refl))))
  where
    base : User
    base = blank_user out name protocols

    added :
        (saved : Bool) (new : User)
        → IsAccount p new
        → ((j : ℕ) (v : User) → lookup j s.users ≡ some v → Differ new v)
        → length s.users < max_users
        → IsStore p (add_user saved new s).1
    added true new good differ room = (
      pool,
      insert-IsAccounts p new.id new s.users (omega (arith, length-add new.id new s.users)) good
          (λ j. λ v. λ h. λ ne. differ j v h) (bound, each, pairs),
    )
    added false new good differ room = (
      pool,
      delete-IsAccounts p new.id (insert new.id new s.users) (
          insert-IsAccounts p new.id new s.users (omega (arith, length-add new.id new s.users)) good
            (λ j. λ v. λ h. λ ne. differ j v h) (bound, each, pairs)),
    )

    issued :
        (new : User) (der key : Option (List ℕ))
        → IsAccount p new
        → ((j : ℕ) (v : User) → lookup j s.users ≡ some v → Differ new v)
        → length s.users < max_users
        → IsStore p (issue out new der key s).1
    issued new none key good differ room = (pool, (bound, each, pairs))
    issued new (some der) none good differ room = (pool, (bound, each, pairs))
    issued new (some der) (some key) good differ room =
        added out.saved (record new { certificate = der ++ s.ca_text; key = key }) good differ room

    go :
        bad_name name ≡ false
        → length s.users < max_users
        → name_taken none name s.users ≡ false
        → (r : Result User) → provision_awg s out.keys base ≡ r
        → IsStore p (certify_user out r s).1
    go named room free (err e) made = (pool, (bound, each, pairs))
    go named room free (ok new) made =
        let provisioned = provision_awg-Provisioned p s out.keys base new pool made in
        if_cases (λ (r : Result User × Store). IsStore p r.1)
          (not (ltb out.now (clip s.ca_expires new).expires)) _ _
          (λ e. (pool, (bound, each, pairs)))
          (λ e.
            issued (clip s.ca_expires new) _ _
              (Provisioned-IsAccount p s.users base new (named, λ a. λ h. absurd cc) provisioned)
              (λ j. λ v. λ h.
                Provisioned-Differ p s.users base new v j h
                  (
                    not_same v.name name (untaken name s.users j v free h),
                    (λ a. λ k. absurd cc),
                    λ a. λ k. refl,
                  )
                  provisioned)
              room)

admit-IsStore :
    (p : Prefix) (protocol : List ℕ) (token connection : ℕ) (r : Result ℕ) (s : Store)
    → IsStore p s
    → IsStore p (admit protocol token connection r s).1
admit-IsStore p protocol token connection (err e) s good = good
admit-IsStore p protocol token connection (ok id) s good =
    if_cases (λ (r : Result (ℕ × ℕ) × Store). IsStore p r.1)
      (not (user_allows protocol (lookup id s.users))) _ _ (λ e. good) (λ e. good)

release-IsStore :
    (p : Prefix) (id token : ℕ) (s : Store) → IsStore p s → IsStore p (release_protocol id token s)
unfolding release_protocol release
release-IsStore p id token s good = go (lookup id s.active)
  where
    go : (m : Option (List (ℕ × ℕ))) → IsStore p (drop_token id token s m)
    go none = good
    go (some m) = if_cases (IsStore p) (length (delete token m) == 0) _ _ (λ e. good) (λ e. good)

Step-IsStore : {c : Crypto} {s t : Store} (p : Prefix) → StoreStep c s t → IsStore p s → IsStore p t
unfolding register_protocol
Step-IsStore p (creates out name protocols new idle) good =
    create-IsStore p out name protocols _ good
Step-IsStore p (renames saved id name) good = rename-IsStore p saved id name _ good
Step-IsStore p (deletes saved id) good = delete_user-IsStore p saved id _ good
Step-IsStore p (changes saved keys id protocols disabled) good =
    set_protocols-IsStore p saved keys id protocols disabled _ good
Step-IsStore {c} p (registers now cs protocol token connection fresh) good =
    admit-IsStore p protocol token connection (allowed c now cs _) _ good
Step-IsStore p (releases id token own) good = release-IsStore p id token _ good

-- Take a store whose worker has the pool `p`, or none. If there are at most 1000 accounts, each
-- name has 1 to 100 bytes, each tunnel address is a host address of the pool other than the
-- server's, and no two accounts share a name or a tunnel address, then all of this holds after any
-- sequence of Create, Rename, Delete, SetProtocols, RegisterProtocol and releases, whether the saves
-- succeed or fail.
pub Reach-IsStore :
    {c : Crypto} {s t : Store} (p : Prefix) → IsStore p s → Reach c s t → IsStore p t
Reach-IsStore p good begins = good
Reach-IsStore p good (goes_on r step) = Step-IsStore p step (Reach-IsStore p good r)

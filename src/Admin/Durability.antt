-- ===== src/Admin/Durability.antt =====
-- internal/admin/store.go and protocols.go: what a restart would read is what the process has.
use quic_lab.Common.{
  ℕ, ◌≡◌, refl, sym, ap, ◌∙◌, inl, inr, Bool, true, false, not, Option, none, some, List, ◌==◌,
  ==_iff, Bool-cases, if_cases, length, GoError, Result, err, ok,
}
use quic_lab.Common.Maps.{lookup, insert, delete, lookup-insert, lookup-delete}
use quic_lab.Admin.{User, Store, Keys, provision_awg}
use quic_lab.Admin.Outcomes.{create-cases}
use quic_lab.Admin.Sessions.{
  Crypto, allowed, user_allows, admit, register_protocol, drop_token, release, release_protocol,
}
use quic_lab.Admin.Steps.{
  StoreStep, Reach, creates, renames, deletes, changes, registers, releases, begins, goes_on,
}
use quic_lab.Admin.Accounts.{
  bad_name, name_taken, add_user, replace_user, rename_found, rename, delete_found, delete_user,
  store_provisioned, change, change_found, set_protocols,
}

abbrev pub IsDurable : Store → Type 0
IsDurable s = (s.disk.identity ≡ s.identity) × ((k : ℕ) → lookup k s.disk.users ≡ lookup k s.users)

pub lookup-put_back :
    (id k : ℕ) (old new : User) (m : List (ℕ × User))
    → lookup id m ≡ some old
    → lookup k (insert id old (insert id new m)) ≡ lookup k m
lookup-put_back id k old new m found = elim (Bool-cases (id == k)) [
  | inl e ↦
      lookup-insert id k old (insert id new m)
      ∙ (rw e (sym found ∙ ap (λ x. lookup x m) ((==_iff id k).0 e)))
  | inr e ↦
      lookup-insert id k old (insert id new m) ∙ (rw e (lookup-insert id k new m ∙ (rw e refl)))
]

pub lookup-take_out :
    (id k : ℕ) (new : User) (m : List (ℕ × User))
    → lookup id m ≡ none
    → lookup k (delete id (insert id new m)) ≡ lookup k m
lookup-take_out id k new m free = elim (Bool-cases (id == k)) [
  | inl e ↦
      lookup-delete id k (insert id new m)
      ∙ (rw e (sym free ∙ ap (λ x. lookup x m) ((==_iff id k).0 e)))
  | inr e ↦ lookup-delete id k (insert id new m) ∙ (rw e (lookup-insert id k new m ∙ (rw e refl)))
]

pub lookup-put_again :
    (id k : ℕ) (old : User) (m : List (ℕ × User))
    → lookup id m ≡ some old
    → lookup k (insert id old (delete id m)) ≡ lookup k m
lookup-put_again id k old m found = elim (Bool-cases (id == k)) [
  | inl e ↦
      lookup-insert id k old (delete id m)
      ∙ (rw e (sym found ∙ ap (λ x. lookup x m) ((==_iff id k).0 e)))
  | inr e ↦ lookup-insert id k old (delete id m) ∙ (rw e (lookup-delete id k m ∙ (rw e refl)))
]

replace_user-IsDurable :
    (saved : Bool) (id : ℕ) (old new : User) (s : Store)
    → lookup id s.users ≡ some old
    → IsDurable s
    → IsDurable (replace_user saved id old new s).1
replace_user-IsDurable true id old new s found good = (refl, λ k. refl)
replace_user-IsDurable false id old new s found (i, same_users) =
    (i, λ k. same_users k ∙ sym (lookup-put_back id k old new s.users found))

add_user-IsDurable :
    (saved : Bool) (u : User) (s : Store)
    → lookup u.id s.users ≡ none
    → IsDurable s
    → IsDurable (add_user saved u s).1
add_user-IsDurable true u s free good = (refl, λ k. refl)
add_user-IsDurable false u s free (i, same_users) =
    (i, λ k. same_users k ∙ sym (lookup-take_out u.id k u s.users free))

delete_found-IsDurable :
    (saved : Bool) (id : ℕ) (o : Option User) (s : Store)
    → lookup id s.users ≡ o
    → IsDurable s
    → IsDurable (delete_found saved id o s).1
delete_found-IsDurable saved id none s found good = good
delete_found-IsDurable true id (some u) s found good = (refl, λ k. refl)
delete_found-IsDurable false id (some u) s found (i, same_users) =
    (i, λ k. same_users k ∙ sym (lookup-put_again id k u s.users found))

rename_found-IsDurable :
    (saved : Bool) (id : ℕ) (name : List ℕ) (o : Option User) (s : Store)
    → lookup id s.users ≡ o
    → IsDurable s
    → IsDurable (rename_found saved id name o s).1
rename_found-IsDurable saved id name none s found good = good
rename_found-IsDurable saved id name (some old) s found good =
    if_cases Durable (bad_name name) _ _ (λ e. good)
      (λ named.
        if_cases Durable (name_taken (some id) name s.users) _ _ (λ e. good)
          (λ free. replace_user-IsDurable saved id old (record old { name = name }) s found good))
  where
    Durable : Option GoError × Store → Type 0
    Durable r = IsDurable r.1

change_found-IsDurable :
    (saved : Bool) (keys : Keys) (id : ℕ) (protocols : List (List ℕ)) (disabled : Bool)
    (o : Option User) (s : Store)
    → lookup id s.users ≡ o
    → IsDurable s
    → IsDurable (change_found saved keys id protocols disabled o s).1
change_found-IsDurable saved keys id protocols disabled none s found good = good
change_found-IsDurable saved keys id protocols disabled (some old) s found good =
    go saved (provision_awg s keys (change protocols disabled old))
  where
    go :
        (saved : Bool) (r : Result User) → IsDurable (store_provisioned saved id old disabled r s).1
    go saved (err e) = good
    go true (ok u) = replace_user-IsDurable true id old u s found good
    go false (ok u) = replace_user-IsDurable false id old u s found good

admit-IsDurable :
    (protocol : List ℕ) (token connection : ℕ) (r : Result ℕ) (s : Store)
    → IsDurable s
    → IsDurable (admit protocol token connection r s).1
admit-IsDurable protocol token connection (err e) s good = good
admit-IsDurable protocol token connection (ok id) s good =
    if_cases (λ (r : Result (ℕ × ℕ) × Store). IsDurable r.1)
      (not (user_allows protocol (lookup id s.users))) _ _ (λ e. good) (λ e. good)

release-IsDurable :
    (id token : ℕ) (s : Store) → IsDurable s → IsDurable (release_protocol id token s)
unfolding release_protocol release
release-IsDurable id token s good = go (lookup id s.active)
  where
    go : (m : Option (List (ℕ × ℕ))) → IsDurable (drop_token id token s m)
    go none = good
    go (some m) = if_cases IsDurable (length (delete token m) == 0) _ _ (λ e. good) (λ e. good)

Step-IsDurable : {c : Crypto} {s t : Store} → StoreStep c s t → IsDurable s → IsDurable t
unfolding register_protocol rename delete_user set_protocols
Step-IsDurable {s} (creates out name protocols new idle) good =
    create-cases IsDurable out name protocols s good (λ u. λ same_id.
      λ on. add_user-IsDurable out.saved u s (ap (λ x. lookup x s.users) same_id ∙ new) good)
Step-IsDurable {s} (renames saved id name) good =
    rename_found-IsDurable saved id name (lookup id s.users) s refl good
Step-IsDurable {s} (deletes saved id) good =
    delete_found-IsDurable saved id (lookup id s.users) s refl good
Step-IsDurable {s} (changes saved keys id protocols disabled) good =
    change_found-IsDurable saved keys id protocols disabled (lookup id s.users) s refl good
Step-IsDurable {c} {s} (registers now cs protocol token connection fresh) good =
    admit-IsDurable protocol token connection (allowed c now cs s) s good
Step-IsDurable {s} (releases id token own) good = release-IsDurable id token s good

-- If identities.json holds the worker's identity and the accounts of the store, then it does so
-- after any sequence of Create, Rename, Delete, SetProtocols, RegisterProtocol and releases: an
-- operation whose save fails leaves each account as it was.
pub Reach-IsDurable : {c : Crypto} {s t : Store} → IsDurable s → Reach c s t → IsDurable t
Reach-IsDurable good begins = good
Reach-IsDurable good (goes_on r step) = Step-IsDurable step (Reach-IsDurable good r)

-- ===== src/Admin/UniquenessSteps.antt =====
-- internal/admin/store.go and protocols.go: each operation keeps names and addresses unshared.
use mathlib.Core.Path.{subst}
use quic_lab.Common.{
  ℕ, suc, ◌≤◌, ◌≡◌, refl, sym, ap, ◌∙◌, inl, inr, Bool, true, false, Option, none, some, List, [],
  ◌∷◌, arith, ==_refl, Bool-cases, is_some, if_cases, length, GoError,
}
use quic_lab.Common.Maps.{
  lookup, insert, delete, lookup-insert, lookup-delete, insert-cases, delete-cases, length-insert,
  length-delete, length-delete_lt,
}
use quic_lab.Net.{Prefix}
use quic_lab.AwgServer.{contains_word}
use quic_lab.Admin.{User, Store, address_of}
use quic_lab.Admin.Provisioning.{IsHost, Provisioned}
use quic_lab.Admin.Accounts.{
  bad_name, name_taken, replace_user, rename_found, rename, delete_found, delete_user,
}
use quic_lab.Admin.Uniqueness.{
  IsAccount, Differ, IsAccounts, IsStore, part-IsAccounts, insert-IsAccounts, untaken_other,
  not_same, unused-Apart,
}

is_this : (a b : ℕ) → contains_word a (b ∷ []) ≡ true → b ≡ a
is_this a b h = ground arith

pub Provisioned-IsAccount :
    (p : Prefix) (m : List (ℕ × User)) (base new : User)
    → IsAccount p base
    → Provisioned p m base new
    → IsAccount p new
Provisioned-IsAccount p m base new (named, hosts) (i, n, d, r, inl same_peer) =
    (rw n named, λ a. λ h. hosts a (rw same_peer at h))
Provisioned-IsAccount p m base new (named, hosts) (i, n, d, r, inr (q, e, host, free)) = (
  rw n named,
  λ a. λ h.
      let h' : contains_word a (address_of (some q)) ≡ true = rw e at h in
      subst (IsHost p) (is_this a q.address h') host,
)

pub Provisioned-Differ :
    (p : Prefix) (m : List (ℕ × User)) (base new v : User) (j : ℕ)
    → lookup j m ≡ some v
    → Differ base v
    → Provisioned p m base new
    → Differ new v
Provisioned-Differ p m base new v j found (names, there, back) (i, n, d, r, inl same_peer) = (
  λ e. names (sym n ∙ e),
  λ a. λ h. there a (rw same_peer at h),
  λ a. λ h. rw same_peer (back a h),
)
Provisioned-Differ p m base new v j found (names, there, back)
      (i, n, d, r, inr (q, e, host, free)) =
    let unused = unused-Apart q.address m j v free found in
    (
      λ e. names (sym n ∙ e),
      λ a. λ h.
          let h' : contains_word a (address_of (some q)) ≡ true = rw e at h in
          subst (λ x. contains_word x (address_of v.peer) ≡ false) (is_this a q.address h') unused,
      λ a. λ h. elim (Bool-cases (contains_word a (address_of (some q)))) [
        | inr free_there ↦ rw e free_there
        | inl same_there ↦
            let same_address = is_this a q.address same_there in
            let bad : contains_word a (address_of v.peer) ≡ false =
              subst (λ x. contains_word x (address_of v.peer) ≡ false) same_address unused in
            absurd (let both : false ≡ true = sym bad ∙ h in cc)
      ],
    )

pub length-replace :
    (id : ℕ) (old new : User) (m : List (ℕ × User))
    → lookup id m ≡ some old
    → length (insert id new m) ≡ length m
length-replace id old new m h = length-insert id new m ∙ (rw h refl)

pub length-add :
    (id : ℕ) (new : User) (m : List (ℕ × User)) → length (insert id new m) ≤ suc (length m)
length-add id new m = ground (arith, length-insert id new m)

-- Writing a user and then the one that was there before: no entry is new.
put_back :
    (id i : ℕ) (old new u : User) (m : List (ℕ × User))
    → lookup id m ≡ some old
    → lookup i (insert id old (insert id new m)) ≡ some u
    → lookup i m ≡ some u
put_back id i old new u m found h = elim (insert-cases id i old u (insert id new m) h) [
  | inl (e, same_user) ↦ subst (λ x. lookup x m ≡ some u) e (found ∙ ap some same_user)
  | inr (ne, h') ↦ elim (insert-cases id i new u m h') [
    | inl (e, same_user) ↦ absurd (ne e)
    | inr (ne, h'') ↦ h''
  ]
]

pub restore-IsAccounts :
    (p : Prefix) (id : ℕ) (old new : User) (m : List (ℕ × User))
    → lookup id m ≡ some old
    → IsAccounts p m
    → IsAccounts p (insert id old (insert id new m))
restore-IsAccounts p id old new m found good =
    let short : length (insert id old (insert id new m)) ≡ length m =
      length-replace id new old (insert id new m)
        (lookup-insert id id new m ∙ (rw (==_refl id) refl))
      ∙ length-replace id old new m found in
    part-IsAccounts p (insert id old (insert id new m)) m (omega (arith, short))
      (λ i. λ u. λ h. put_back id i old new u m found h) good

pub delete-IsAccounts :
    (p : Prefix) (id : ℕ) (m : List (ℕ × User)) → IsAccounts p m → IsAccounts p (delete id m)
delete-IsAccounts p id m good =
    part-IsAccounts p (delete id m) m (length-delete id m)
      (λ i. λ u. λ h. (delete-cases id i u m h).1) good

pub rename-IsStore :
    (p : Prefix) (saved : Bool) (id : ℕ) (name : List ℕ) (s : Store)
    → IsStore p s
    → IsStore p (rename saved id name s).1
unfolding rename
rename-IsStore p saved id name s (pool, (bound, each, pairs)) = go (lookup id s.users) refl
  where
    written :
        (saved : Bool) (old : User)
        → lookup id s.users ≡ some old
        → bad_name name ≡ false
        → name_taken (some id) name s.users ≡ false
        → IsStore p (replace_user saved id old (record old { name = name }) s).1
    written false old found named free = (
      pool,
      restore-IsAccounts p id old (record old { name = name }) s.users found (bound, each, pairs),
    )
    written true old found named free = (
      pool,
      insert-IsAccounts p id (record old { name = name }) s.users
          (omega (arith, length-replace id old (record old { name = name }) s.users found))
          (named, (each id old found).1)
          (λ j. λ v. λ h. λ ne.
            let (names, there, again) = pairs id j old v found h ne in
            (not_same v.name name (untaken_other id name s.users j v free h ne), there, again))
          (bound, each, pairs),
    )

    go : (o : Option User) → lookup id s.users ≡ o → IsStore p (rename_found saved id name o s).1
    go none found = (pool, (bound, each, pairs))
    go (some old) found =
        if_cases (λ (r : Option GoError × Store). IsStore p r.1) (bad_name name) _ _
          (λ e. (pool, (bound, each, pairs)))
          (λ named.
            if_cases (λ (r : Option GoError × Store). IsStore p r.1)
              (name_taken (some id) name s.users) _ _ (λ e. (pool, (bound, each, pairs)))
              (λ free. written saved old found named free))

pub delete_user-IsStore :
    (p : Prefix) (saved : Bool) (id : ℕ) (s : Store)
    → IsStore p s
    → IsStore p (delete_user saved id s).1
unfolding delete_user
delete_user-IsStore p saved id s (pool, good) = go saved (lookup id s.users) refl
  where
    back : (u : User) → lookup id s.users ≡ some u → IsAccounts p (insert id u (delete id s.users))
    back u found =
        let gone : lookup id (delete id s.users) ≡ none =
          lookup-delete id id s.users ∙ (rw (==_refl id) refl) in
        let there : is_some (lookup id s.users) ≡ true = rw found refl in
        let shorter = length-delete_lt id s.users there in
        part-IsAccounts p (insert id u (delete id s.users)) s.users
          (omega (arith, shorter, length-add id u (delete id s.users)))
          (λ i. λ v. λ h. elim (insert-cases id i u v (delete id s.users) h) [
            | inl (e, same_user) ↦
                subst (λ x. lookup x s.users ≡ some v) e (found ∙ ap some same_user)
            | inr (ne, h') ↦ (delete-cases id i v s.users h').1
          ])
          good

    go :
        (saved : Bool) (o : Option User)
        → lookup id s.users ≡ o
        → IsStore p (delete_found saved id o s).1
    go saved none found = (pool, good)
    go true (some u) found = (pool, delete-IsAccounts p id s.users good)
    go false (some u) found = (pool, back u found)

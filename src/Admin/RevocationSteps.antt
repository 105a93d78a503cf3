-- ===== src/Admin/RevocationSteps.antt =====
-- internal/admin/store.go and protocols.go: Delete, Rename and SetProtocols against the sessions.
use mathlib.Core.Path.{subst}
use quic_lab.Common.{
  ℕ, ◌≡◌, refl, sym, ap, ◌∙◌, ◌≢◌, ◌⊎◌, inl, inr, Bool, true, false, not, ◌||◌, Option, none, some,
  List, [], ◌∷◌, ◌++◌, arith, ◌==◌, ==_iff, Bool-cases, if_cases, GoError, Result, err, ok,
}
use quic_lab.Common.Maps.{
  lookup, insert, delete, lookup-insert, lookup-delete, insert-cases, delete-cases,
}
use quic_lab.AwgServer.{contains_word}
use quic_lab.Admin.{User, Store, allows, Keys, provision_awg}
use quic_lab.Admin.Provisioning.{provision_awg-SameUser}
use quic_lab.Admin.Accounts.{
  bad_name, name_taken, replace_user, rename_found, connections, entries, sessions_of, delete_found,
  protocol_of, refused, store_provisioned, change, change_found,
}
use quic_lab.Admin.Durability.{lookup-put_back, lookup-put_again}
use quic_lab.Admin.Revocation.{IsPermitted, IsRevoked, same_users-IsRevoked, insert-IsRevoked}

still_closed : (a : ℕ) (l k : List ℕ) → contains_word a l ≡ true → contains_word a (l ++ k) ≡ true
still_closed a [] k h = cc
still_closed a (b ∷ l) k h = ground (arith, still_closed a l k)

now_closed : (a : ℕ) (l k : List ℕ) → contains_word a k ≡ true → contains_word a (l ++ k) ≡ true
now_closed a [] k h = h
now_closed a (b ∷ l) k h = ground (arith, now_closed a l k)

connections-lookup :
    (token connection : ℕ) (m : List (ℕ × ℕ))
    → lookup token m ≡ some connection
    → contains_word connection (connections m) ≡ true
unfolding lookup
connections-lookup token connection [] h = cc
connections-lookup token connection ((t, n) ∷ m) h =
    ground (arith, connections-lookup token connection m)

refused-cases :
    (disabled : Bool) (u : User) (s : Store) (m : List (ℕ × ℕ)) (token connection : ℕ)
    → lookup token m ≡ some connection
    → (contains_word connection (refused disabled u s m) ≡ true)
      ⊎ ((disabled ≡ false) × (allows u (protocol_of token s) ≡ true))
unfolding refused lookup
refused-cases disabled u s [] token connection h = cc
refused-cases disabled u s ((t, n) ∷ m) token connection h = elim (Bool-cases (t == token)) [
  | inr e ↦ elim (refused-cases disabled u s m token connection (rw e at h)) [
    | inr good ↦ inr good
    | inl closed ↦ inl (elim (Bool-cases (disabled || not (allows u (protocol_of t s)))) [
      | inl f ↦ rw f (now_closed connection (n ∷ []) (refused disabled u s m) closed)
      | inr f ↦ rw f closed
    ])
  ]
  | inl e ↦
      let this : n ≡ connection = (let found : some n ≡ some connection = rw e at h in cc) in
      elim (Bool-cases (disabled || not (allows u (protocol_of t s)))) [
        | inl f ↦
            inl (rw f (still_closed connection (n ∷ []) (refused disabled u s m) (ground arith)))
        | inr f ↦
            let (on, has) = neither disabled (allows u (protocol_of t s)) f in
            inr (on, subst (λ x. allows u (protocol_of x s) ≡ true) ((==_iff t token).0 e) has)
      ]
]
  where
    neither : (a b : Bool) → (a || not b) ≡ false → (a ≡ false) × (b ≡ true)
    neither true b h = cc
    neither false true h = (refl, refl)
    neither false false h = cc

pub no_entry : (token : ℕ) → lookup {V = ℕ} token [] ≡ none
unfolding lookup
no_entry token = refl

pub delete_found-IsRevoked :
    (saved : Bool) (id : ℕ) (o : Option User) (s : Store)
    → lookup id s.users ≡ o
    → IsRevoked s
    → IsRevoked (delete_found saved id o s).1
delete_found-IsRevoked saved id none s found good = good
delete_found-IsRevoked false id (some u) s found good =
    same_users-IsRevoked (insert id u (delete id s.users)) s
      (λ k. lookup-put_again id k u s.users found) good
delete_found-IsRevoked true id (some u) s found (keys, covers) = (
  λ i. λ v. λ h. keys i v (delete-cases id i v s.users h).1,
  λ i. λ token. λ connection. λ h. elim (Bool-cases (id == i)) [
    | inl e ↦
        let gone : lookup i (delete id s.active) ≡ none =
          lookup-delete id i s.active ∙ (rw e refl) in
        absurd (
          let bad : none ≡ some connection =
            sym (ap (λ o. lookup token (entries o)) gone ∙ no_entry token) ∙ h in
          cc)
    | inr e ↦
        let same_sessions : lookup i (delete id s.active) ≡ lookup i s.active =
          lookup-delete id i s.active ∙ (rw e refl) in
        let same_account : lookup i (delete id s.users) ≡ lookup i s.users =
          lookup-delete id i s.users ∙ (rw e refl) in
        elim (covers i token connection
          (sym (ap (λ o. lookup token (entries o)) same_sessions) ∙ h)) [
            | inl closed ↦ inl (still_closed connection s.closed _ closed)
            | inr good ↦ inr (rw same_account good)
          ]
  ],
)

pub rename_found-IsRevoked :
    (saved : Bool) (id : ℕ) (name : List ℕ) (o : Option User) (s : Store)
    → lookup id s.users ≡ o
    → IsRevoked s
    → IsRevoked (rename_found saved id name o s).1
rename_found-IsRevoked saved id name none s found good = good
rename_found-IsRevoked saved id name (some old) s found good =
    if_cases Revoked (bad_name name) _ _ (λ e. good)
      (λ named.
        if_cases Revoked (name_taken (some id) name s.users) _ _ (λ e. good) (λ free. go saved))
  where
    Revoked : Option GoError × Store → Type 0
    Revoked r = IsRevoked r.1

    new : User
    new = record old { name = name }

    go : (saved : Bool) → IsRevoked (replace_user saved id old new s).1
    go true = insert-IsRevoked id old new s found refl refl refl good
    go false =
        same_users-IsRevoked (insert id old (insert id new s.users)) s
          (λ k. lookup-put_back id k old new s.users found) good

pub change_found-IsRevoked :
    (saved : Bool) (keys : Keys) (id : ℕ) (protocols : List (List ℕ)) (disabled : Bool)
    (o : Option User) (s : Store)
    → lookup id s.users ≡ o
    → IsRevoked s
    → IsRevoked (change_found saved keys id protocols disabled o s).1
unfolding refused
change_found-IsRevoked saved keys id protocols disabled none s found good = good
change_found-IsRevoked saved keys id protocols disabled (some old) s found (has_keys, covers) =
    go saved (provision_awg s keys (change protocols disabled old)) refl
  where
    not_equal : (a b : ℕ) → a ≢ b → (a == b) ≡ false
    not_equal a b ne = ground arith

    permitted_now :
        (i : ℕ) (protocol : List ℕ) (u : User)
        → id ≢ i
        → IsPermitted protocol (lookup i s.users)
        → IsPermitted protocol (lookup i (insert id u s.users))
    permitted_now i protocol u ne good =
        let same_account : lookup i (insert id u s.users) ≡ lookup i s.users =
          lookup-insert id i u s.users ∙ (rw (not_equal id i ne) refl) in
        rw same_account good

    go :
        (saved : Bool) (r : Result User)
        → provision_awg s keys (change protocols disabled old) ≡ r
        → IsRevoked (store_provisioned saved id old disabled r s).1
    go saved (err e) made = (has_keys, covers)
    go false (ok u) made =
        same_users-IsRevoked (insert id old (insert id u s.users)) s
          (λ k. lookup-put_back id k old u s.users found) (has_keys, covers)
    go true (ok u) made =
        let (same_id, same_switch, same_protocols) =
          provision_awg-SameUser s keys (change protocols disabled old) u made in
        (
          λ i. λ v. λ h. elim (insert-cases id i u v s.users h) [
            | inl (e, same_user) ↦
                sym (ap (λ (x : User). x.id) same_user) ∙ same_id ∙ has_keys id old found ∙ e
            | inr (ne, h') ↦ has_keys i v h'
          ],
          λ i. λ token. λ connection. λ h. elim (Bool-cases (id == i)) [
            | inl e ↦ elim (refused-cases disabled u s (sessions_of i s) token connection h) [
              | inl closed ↦ inl (
                  now_closed connection s.closed (refused disabled u s (sessions_of id s)) (
                    subst
                      (λ x.
                        contains_word connection (refused disabled u s (sessions_of x s)) ≡ true)
                      (sym ((==_iff id i).0 e)) closed))
              | inr (on, has) ↦ inr (rw (lookup-insert id i u s.users, e) (same_switch ∙ on, has))
            ]
            | inr e ↦ elim (covers i token connection h) [
              | inl closed ↦ inl (still_closed connection s.closed _ closed)
              | inr good ↦ inr (permitted_now i (protocol_of token s) u (ground arith) good)
            ]
          ],
        )

-- ===== src/Mobile/Router/Tables.antt =====
-- mobile/multiple.go: look-ups in the maps of the router behind a write or a removal.
use text.Mathlib.Text.{◌==◌ as str_eq}
use text.Mathlib.TextEquality.{eq_iff}
use quic_lab.Common.{
  String, ◌≡◌, refl, sym, ap, ◌∙◌, ◌≢◌, ◌⊎◌, inl, inr, true, false, none, some, List, [], ◌∷◌,
  if◌then◌else◌, Bool-cases,
}
use quic_lab.Mobile.Router.{find, remove}

module _ {ℓ} {V : Type ℓ} where
  pub find_hit :
      (id key : String) (v : V) (m : List (String × V)) → key ≡ id → find id ((key, v) ∷ m) ≡ some v
  unfolding find
  find_hit id key v m e = rw ((eq_iff key id).1 e) refl

  pub find_miss :
      (id key : String) (v : V) (m : List (String × V))
      → str_eq key id ≡ false
      → find id ((key, v) ∷ m) ≡ find id m
  unfolding find
  find_miss id key v m e = rw e refl

  pub find-remove_hit : (id : String) (m : List (String × V)) → find id (remove id m) ≡ none
  unfolding find remove
  find-remove_hit id [] = refl
  find-remove_hit id ((key, v) ∷ m) = elim (Bool-cases (str_eq key id)) [
    | inl e ↦ rw e (find-remove_hit id m)
    | inr e ↦ rw e (find_miss id key v (remove id m) e ∙ find-remove_hit id m)
  ]

  pub find-remove_miss :
      (gone id : String) (m : List (String × V)) → gone ≢ id → find id (remove gone m) ≡ find id m
  unfolding find remove
  find-remove_miss gone id [] ne = refl
  find-remove_miss gone id ((key, v) ∷ m) ne = elim (Bool-cases (str_eq key gone)) [
    | inl e ↦ elim (Bool-cases (str_eq key id)) [
      | inl f ↦ absurd (ne (sym ((eq_iff key gone).0 e) ∙ (eq_iff key id).0 f))
      | inr f ↦ rw (e, f) (find-remove_miss gone id m ne)
    ]
    | inr e ↦ rw e (ap (λ x. if str_eq key id then some v else x) (find-remove_miss gone id m ne))
  ]

  pub find-remove-cases :
      (gone id : String) (m : List (String × V)) (v : V)
      → find id (remove gone m) ≡ some v
      → (gone ≢ id) × (find id m ≡ some v)
  find-remove-cases gone id m v h = elim (Bool-cases (str_eq gone id)) [
    | inl e ↦ absurd (
        let bad : none ≡ some v =
          sym (find-remove_hit id m)
          ∙ (ap (λ k. find id (remove k m)) (sym ((eq_iff gone id).0 e)) ∙ h) in
        cc)
    | inr e ↦
        let ne : gone ≢ id =
          (λ same. let bad : true ≡ false = sym ((eq_iff gone id).1 same) ∙ e in cc) in
        (ne, sym (find-remove_miss gone id m ne) ∙ h)
  ]

  pub find-put-cases :
      (put id : String) (v w : V) (m : List (String × V))
      → find id ((put, v) ∷ remove put m) ≡ some w
      → ((put ≡ id) × (v ≡ w)) ⊎ ((put ≢ id) × (find id m ≡ some w))
  find-put-cases put id v w m h = elim (Bool-cases (str_eq put id)) [
    | inl e ↦
        let same : put ≡ id = (eq_iff put id).0 e in
        inl (
          same,
          let found : some v ≡ some w = sym (find_hit id put v (remove put m) same) ∙ h in cc,
        )
    | inr e ↦ inr (find-remove-cases put id m w (sym (find_miss id put v (remove put m) e) ∙ h))
  ]

-- ===== src/AwgServer/Worker/Applying.antt =====
-- internal/awgserver/worker.go: the two loops of Apply on a device that does what it accepts.
use mathlib.Core.Path.{subst}
use quic_lab.Common.{
  ℕ, ◌≡◌, refl, sym, ap, ◌∙◌, inl, inr, true, false, Option, none, some, List, [], ◌∷◌, ◌==◌,
  if◌then◌else◌, ==_iff, Bool-cases, is_some, if_cases,
}
use quic_lab.Common.Bytes.{same-eq}
use quic_lab.Common.Maps.{lookup, lookup-insert, lookup-delete}
use quic_lab.AwgServer.Worker.{
  Setting, Device, ApplyError, Applied, Worker, same_setting, removed, configured, and_on,
  revoke_peers, set_peers, configure, set_peer, remove_peer, applied, failed,
}

-- What the device promises of a command that it accepts, for the peers that it holds.
pub record DeviceLaws {ℓ} {D : Type ℓ} (device : Device D) (holds : D → ℕ → Option Setting)
    : Type ℓ where
  pub keeps_configured :
      (key : ℕ) (d e : D)
      → device.ipc_set (configure key) d ≡ some e
      → (j : ℕ) → holds e j ≡ holds d j
  pub sets :
      (key : ℕ) (s : Setting) (d e : D)
      → device.ipc_set (set_peer key s) d ≡ some e
      → (j : ℕ) → holds e j ≡ (if key == j then some s else holds d j)
  pub removes :
      (key : ℕ) (d e : D)
      → device.ipc_set (remove_peer key) d ≡ some e
      → (j : ℕ) → holds e j ≡ (if key == j then none else holds d j)

-- No key stands twice.
abbrev pub Distinct : List (ℕ × Setting) → Type 0
Distinct [] = Unit {0}
Distinct ((key, s) ∷ rest) = (lookup key rest ≡ none) × Distinct rest

module _ {ℓ} {D : Type ℓ} (device : Device D) (holds : D → ℕ → Option Setting)
    (laws : DeviceLaws device holds) where
  -- The worker's table is what the device holds.
  abbrev pub InStep : Worker D → Type 0
  InStep w = (key : ℕ) → holds w.device key ≡ lookup key w.peers

  -- A step that ends with `next` has changed at most the peer `key`.
  abbrev pub StepGives : ℕ → Option Setting → Worker D → Applied (Worker D) → Type 0
  StepGives key now_held w (failed e) = Unit {0}
  StepGives key now_held w (applied next) =
      InStep next
      × ((j : ℕ) → lookup j next.peers ≡ (if key == j then now_held else lookup j w.peers))

  removed-StepGives :
      (key : ℕ) (o : Option D) (w : Worker D)
      → device.ipc_set (remove_peer key) w.device ≡ o
      → InStep w
      → StepGives key none w (removed device key o w)
  removed-StepGives key none w e h = tt
  removed-StepGives key (some d) w e h = (
    (λ j. laws.removes key w.device d e j ∙ (rw (h j) (sym (lookup-delete key j w.peers)))),
    λ j. lookup-delete key j w.peers,
  )

  configured-StepGives :
      (key : ℕ) (s : Setting) (o : Option D) (w : Worker D)
      → device.ipc_set (set_peer key s) w.device ≡ o
      → InStep w
      → StepGives key (some s) w (configured device key s o w)
  configured-StepGives key s none w e h = tt
  configured-StepGives key s (some d) w e h = (
    (λ j. laws.sets key s w.device d e j ∙ (rw (h j) (sym (lookup-insert key j s w.peers)))),
    λ j. lookup-insert key j s w.peers,
  )

  wanted_here :
      (key j : ℕ) (desired : List (ℕ × Setting))
      → (key == j) ≡ true
      → is_some (lookup key desired) ≡ true
      → lookup j desired ≡ none
      → ⊥
  wanted_here key j desired f e d =
      let same : key ≡ j = (==_iff key j).0 f in
      let gone : lookup key desired ≡ none = subst (λ k. lookup k desired ≡ none) (sym same) d in
      let bad : false ≡ true = rw gone at e in cc

  -- What the first loop has done when it returns, whether it failed or not.
  abbrev Revoked :
      List (ℕ × Setting) → List (ℕ × Setting) → Worker D → Option ApplyError × Worker D → Type 0
  Revoked visited desired w (o, next) =
      InStep next
      × ((j : ℕ) → lookup j desired ≡ none → lookup j w.peers ≡ none → lookup j next.peers ≡ none)
      × (o ≡ none
          → (j : ℕ) → lookup j desired ≡ none
          → is_some (lookup j visited) ≡ true
          → lookup j next.peers ≡ none)

  -- The step at `key` in front of the rest of the loop.
  revoke-step :
      (key : ℕ) (s : Setting) (rest desired : List (ℕ × Setting)) (w : Worker D)
      (a : Applied (Worker D))
      → InStep w
      → StepGives key none w a
      → ((next : Worker D)
          → InStep next
          → Revoked rest desired next (revoke_peers device rest desired next))
      → Revoked
          ((key, s) ∷ rest)
          desired
          w
          (and_on device w a (λ next. revoke_peers device rest desired next))
  unfolding revoke_peers
  revoke-step key s rest desired w (failed e) h gives later =
      (h, (λ j d n. n), λ bad. absurd (let no : some e ≡ none = bad in cc))
  revoke-step key s rest desired w (applied next) h (synced, changed) later =
      let (good, stays, gone) = later next synced in
      (
        good,
        (λ j d n. stays j d (
            rw (changed j, n)
              (if_cases (λ o. o ≡ none) (key == j) none none (λ e. refl) (λ e. refl)))),
        λ o j d v. elim (Bool-cases (key == j)) [
          | inl e ↦ stays j d (rw (changed j, e) refl)
          | inr e ↦ gone o j d (rw e at v)
        ],
      )

  pub revoke_peers-Revoked :
      (visited desired : List (ℕ × Setting)) (w : Worker D)
      → InStep w
      → Revoked visited desired w (revoke_peers device visited desired w)
  unfolding revoke_peers
  revoke_peers-Revoked [] desired w h =
      (h, (λ j d n. n), λ o j d v. absurd (let bad : false ≡ true = v in cc))
  revoke_peers-Revoked ((key, s) ∷ rest) desired w h =
      if_cases (Revoked ((key, s) ∷ rest) desired w) (is_some (lookup key desired)) _ _
        (λ e.
          let (good, stays, gone) = revoke_peers-Revoked rest desired w h in
          (
            good,
            stays,
            λ o j d v. elim (Bool-cases (key == j)) [
              | inl f ↦ absurd (wanted_here key j desired f e d)
              | inr f ↦ gone o j d (rw f at v)
            ],
          ))
        (λ e.
          revoke-step key s rest desired w
            (removed device key (device.ipc_set (remove_peer key) w.device) w) h
            (removed-StepGives key (device.ipc_set (remove_peer key) w.device) w refl h)
            (λ next g. revoke_peers-Revoked rest desired next g))

  -- What the second loop has done when it returns.
  abbrev HasSet : List (ℕ × Setting) → Worker D → Option ApplyError × Worker D → Type 0
  HasSet wanted w (o, next) =
      InStep next
      × ((j : ℕ) → lookup j wanted ≡ none → lookup j next.peers ≡ lookup j w.peers)
      × (o ≡ none → (j : ℕ) (s : Setting) → lookup j wanted ≡ some s → lookup j next.peers ≡ some s)

  set-step :
      (key : ℕ) (s : Setting) (rest : List (ℕ × Setting)) (w : Worker D) (a : Applied (Worker D))
      → lookup key rest ≡ none
      → InStep w
      → StepGives key (some s) w a
      → ((next : Worker D) → InStep next → HasSet rest next (set_peers device rest next))
      → HasSet ((key, s) ∷ rest) w (and_on device w a (λ next. set_peers device rest next))
  unfolding set_peers
  set-step key s rest w (failed e) alone h gives later =
      (h, (λ j n. refl), λ bad. absurd (let no : some e ≡ none = bad in cc))
  set-step key s rest w (applied next) alone h (synced, changed) later =
      let (good, others, here) = later next synced in
      (
        good,
        (λ j n. elim (Bool-cases (key == j)) [
          | inl e ↦ absurd (let bad : some s ≡ none = rw e at n in cc)
          | inr e ↦ others j (rw e at n) ∙ (rw (changed j, e) refl)
        ]),
        λ o j t v. elim (Bool-cases (key == j)) [
          | inl e ↦
              let this : key ≡ j = (==_iff key j).0 e in
              let given : some s ≡ some t = rw e at v in
              others j (subst (λ k. lookup k rest ≡ none) this alone) ∙ (rw (changed j, e) given)
          | inr e ↦ here o j t (rw e at v)
        ],
      )

  set-kept :
      (key : ℕ) (s : Setting) (rest : List (ℕ × Setting)) (w : Worker D)
      (r : Option ApplyError × Worker D)
      → lookup key rest ≡ none
      → lookup key w.peers ≡ some s
      → HasSet rest w r
      → HasSet ((key, s) ∷ rest) w r
  unfolding lookup
  set-kept key s rest w r alone held (good, others, here) = (
    good,
    (λ j n. elim (Bool-cases (key == j)) [
      | inl e ↦ absurd (let bad : some s ≡ none = rw e at n in cc)
      | inr e ↦ others j (rw e at n)
    ]),
    λ o j t v. elim (Bool-cases (key == j)) [
      | inl e ↦
          let this : key ≡ j = (==_iff key j).0 e in
          let given : some s ≡ some t = rw e at v in
          others j (subst (λ k. lookup k rest ≡ none) this alone)
          ∙ (subst (λ k. lookup k w.peers ≡ some s) this held ∙ given)
      | inr e ↦ here o j t (rw e at v)
    ],
  )

  same_setting-eq : (s : Setting) (o : Option Setting) → same_setting s o ≡ true → o ≡ some s
  same_setting-eq s none e = absurd (let bad : false ≡ true = e in cc)
  same_setting-eq s (some t) e = elim (Bool-cases (s.psk == t.psk)) [
    | inl f ↦
        let addresses : s.address ≡ t.address = same-eq s.address t.address (rw f at e) in
        let keys : s.psk ≡ t.psk = (==_iff s.psk t.psk).0 f in
        ap some (
          ap (λ k. record { psk = k; address = t.address }) (sym keys)
          ∙ ap (λ a. record { psk = s.psk; address = a }) (sym addresses))
    | inr f ↦ absurd (let bad : false ≡ true = rw f at e in cc)
  ]

  pub set_peers-HasSet :
      (wanted : List (ℕ × Setting)) (w : Worker D)
      → Distinct wanted
      → InStep w
      → HasSet wanted w (set_peers device wanted w)
  unfolding set_peers
  set_peers-HasSet [] w distinct h =
      (h, (λ j n. refl), λ o j s v. absurd (let bad : none ≡ some s = v in cc))
  set_peers-HasSet ((key, s) ∷ rest) w (alone, distinct) h =
      if_cases (HasSet ((key, s) ∷ rest) w) (same_setting s (lookup key w.peers)) _ _
        (λ e.
          set-kept key s rest w (set_peers device rest w) alone
            (same_setting-eq s (lookup key w.peers) e) (set_peers-HasSet rest w distinct h))
        (λ e.
          set-step key s rest w
            (configured device key s (device.ipc_set (set_peer key s) w.device) w) alone h
            (configured-StepGives key s (device.ipc_set (set_peer key s) w.device) w refl h)
            (λ next g. set_peers-HasSet rest next distinct g))

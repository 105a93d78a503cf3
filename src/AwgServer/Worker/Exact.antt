-- ===== src/AwgServer/Worker/Exact.antt =====
-- internal/awgserver/worker.go: after Apply the device holds the peers of the enabled accounts.
use quic_lab.Common.{ℕ, ◌≡◌, Option, none, some, List}
use quic_lab.Common.Maps.{lookup}
use quic_lab.AwgServer.Worker.{Setting, Device, WorkerUser, ApplyError, Worker}
use quic_lab.AwgServer.Worker.Applying.{DeviceLaws, InStep}
use quic_lab.AwgServer.Worker.Wanted.{SomeUserHas, AllFound}

module _ {ℓ} {D : Type ℓ} (device : Device D) (holds : D → ℕ → Option Setting)
    (laws : DeviceLaws device holds) where
  abbrev Is : Worker D → Type 0
  Is w = InStep device holds laws w

  -- The device holds what the table says; when no step has failed it is what is wanted.
  abbrev pub HoldsWanted : (ℕ → Option Setting) → Option ApplyError × Worker D → Type 0
  HoldsWanted wanted (o, next) =
      ((key : ℕ) → holds next.device key ≡ lookup key next.peers)
      × (o ≡ none → (key : ℕ) → holds next.device key ≡ wanted key)

  -- What Apply promises.
  abbrev pub Exactly : ℕ → List (ℕ × WorkerUser) → Option ApplyError × Worker D → Type 0
  Exactly now users r =
      ((key : ℕ) → holds r.1.device key ≡ lookup key r.1.peers)
      × (r.0 ≡ none
          → ((key : ℕ) (s : Setting) → holds r.1.device key ≡ some s → SomeUserHas now users key s)
            × AllFound now (holds r.1.device) users)

-- ===== src/AwgServer/Worker.antt =====
-- internal/awgserver/worker.go: the worker that keeps the AWG device in step with the accounts.
-- The device is a parameter: a command that it rejects changes nothing. A key is the number of its
-- 32 bytes, and a text that KeyHex refuses is none.
pub mod Applying
pub mod Wanted
pub mod Exact
pub mod Snapshots
pub mod Activity
use quic_lab.Common.{
  ℕ, ◌+◌, Bool, false, not, ◌&&◌, ◌||◌, Option, none, some, List, [], ◌∷◌, ltb, ◌==◌, if◌then◌else◌,
  is_some,
}
use quic_lab.Common.Bytes.{same, member}
use quic_lab.Common.Maps.{lookup, insert, delete}
use quic_lab.Net.{parse_ip4, Prefix, masked, contains, parse_prefix}
use quic_lab.AwgServer.{awg, enabled}

-- The texts that Apply formats for a peer, less its key.
pub record Setting : Type 0 where
  pub psk : ℕ
  pub address : List ℕ

pub data Command : Type 0 where
  configure : ℕ → Command
  set_peer : ℕ → Setting → Command
  remove_peer : ℕ → Command

-- Device.IpcSet; none is an error.
pub record Device {ℓ} (D : Type ℓ) : Type ℓ where
  pub ipc_set : Command → D → Option D

pub record WorkerPeer : Type 0 where
  pub public_key : Option ℕ
  pub psk : Option ℕ
  pub address : List ℕ

pub record WorkerUser : Type 0 where
  pub id : ℕ
  pub disabled : Bool
  pub protocols : Option (List (List ℕ))
  pub expires : ℕ
  pub peer : Option WorkerPeer

-- State: the private key of the identity and the accounts.
pub record WorkerState : Type 0 where
  pub identity : Option (Option ℕ)
  pub users : List (ℕ × WorkerUser)

-- User.Enabled, with the peer that it has found.
unfoldable pub enabled_peer : ℕ → WorkerUser → Option WorkerPeer
unfolding enabled
enabled_peer now u =
    if not u.disabled && ltb now u.expires && enabled u.protocols awg then u.peer else none

pub data ApplyError : Type 0 where
  not_provisioned bad_key rejected identity_changed : ApplyError
  bad_address duplicate_key cannot_revoke cannot_apply : ApplyError

pub data Applied {ℓ} (A : Type ℓ) : Type ℓ where
  applied : A → Applied A
  failed : ApplyError → Applied A

-- The test on an address of a peer, less that of its use by another peer.
abbrev pub in_pool : Option Prefix → Option ℕ → Bool
in_pool none ip = false
in_pool (some p) none = false
in_pool (some p) (some ip) =
    contains p ip && not (ip == p.addr) && not (ip == (masked p).addr) && contains p (ip + 1)

abbrev pub want_keys :
    WorkerPeer → Option ℕ → Option ℕ → List (ℕ × Setting) → Applied (List (ℕ × Setting))
want_keys p none psk desired = failed bad_key
want_keys p (some key) none desired = failed bad_key
want_keys p (some key) (some psk) desired =
    if is_some (lookup key desired)
    then failed duplicate_key
    else applied (insert key (record { psk = psk; address = p.address }) desired)

-- One account in the loop of Apply.
unfoldable pub want_peer :
    Option Prefix → List (List ℕ) → WorkerPeer → List (ℕ × Setting) → Applied (List (ℕ × Setting))
unfolding lookup insert parse_ip4 same member
want_peer pool used p desired =
    if not (in_pool pool (parse_ip4 p.address)) || member p.address used
    then failed bad_address
    else want_keys p p.public_key p.psk desired

-- The loop of Apply over the accounts: `used` are the addresses of those before.
abbrev pub then_want :
    Applied (List (ℕ × Setting))
    → (List (ℕ × Setting) → Applied (List (ℕ × Setting)))
    → Applied (List (ℕ × Setting))
then_want (failed e) k = failed e
then_want (applied desired) k = k desired

abbrev pub want_one :
    Option WorkerPeer
    → Applied (List (ℕ × Setting))
    → (WorkerPeer → Applied (List (ℕ × Setting)))
    → Applied (List (ℕ × Setting))
want_one none skipped k = skipped
want_one (some p) skipped k = k p

unfoldable pub want_all :
    ℕ
    → Option Prefix
    → List (List ℕ)
    → List (ℕ × Setting)
    → List (ℕ × WorkerUser)
    → Applied (List (ℕ × Setting))
unfolding enabled_peer want_peer
want_all now pool used desired [] = applied desired
want_all now pool used desired ((id, u) ∷ users) =
    want_one (enabled_peer now u) (want_all now pool used desired users) (λ p.
      then_want (want_peer pool used p desired)
        (λ next. want_all now pool (p.address ∷ used) next users))

pub record PeerStatus : Type 0 where
  pub id : Option ℕ
  pub source : List ℕ
  pub handshake : ℕ
  pub activity : ℕ
  pub tx : ℕ
  pub rx : ℕ

pub record Worker {ℓ} (D : Type ℓ) : Type ℓ where
  pub device : D
  pub pool : List ℕ  -- Config.Address
  pub peers : List (ℕ × Setting)
  pub activity : List (ℕ × PeerStatus)
  pub identity : Option ℕ

abbrev pub same_setting : Setting → Option Setting → Bool
same_setting s none = false
same_setting s (some t) = s.psk == t.psk && same s.address t.address

module _ {ℓ} {D : Type ℓ} (device : Device D) where
  abbrev pub removed : ℕ → Option D → Worker D → Applied (Worker D)
  removed key none w = failed cannot_revoke
  removed key (some d) w = applied (record w { device = d; peers = delete key w.peers })

  abbrev pub configured : ℕ → Setting → Option D → Worker D → Applied (Worker D)
  configured key s none w = failed cannot_apply
  configured key s (some d) w = applied (record w { device = d; peers = insert key s w.peers })

  -- A failed step ends the loop with the worker as it is.
  abbrev pub and_on :
      Worker D
      → Applied (Worker D)
      → (Worker D → Option ApplyError × Worker D)
      → Option ApplyError × Worker D
  and_on w (failed e) k = (some e, w)
  and_on w (applied next) k = k next

  -- The loop that removes the revoked peers, over those that were there.
  unfoldable pub revoke_peers :
      List (ℕ × Setting) → List (ℕ × Setting) → Worker D → Option ApplyError × Worker D
  unfolding lookup delete
  revoke_peers [] desired w = (none, w)
  revoke_peers ((key, s) ∷ rest) desired w =
      if is_some (lookup key desired)
      then revoke_peers rest desired w
      else and_on w (removed key (device.ipc_set (remove_peer key) w.device) w)
          (λ next. revoke_peers rest desired next)

  unfoldable pub set_peers : List (ℕ × Setting) → Worker D → Option ApplyError × Worker D
  unfolding lookup insert same
  set_peers [] w = (none, w)
  set_peers ((key, s) ∷ rest) w =
      if same_setting s (lookup key w.peers)
      then set_peers rest w
      else and_on w (configured key s (device.ipc_set (set_peer key s) w.device) w)
          (λ next. set_peers rest next)

  abbrev pub and_set :
      List (ℕ × Setting) → Option ApplyError × Worker D → Option ApplyError × Worker D
  and_set desired (some e, w) = (some e, w)
  and_set desired (none, w) = set_peers desired w

  abbrev pub apply_wanted : Applied (List (ℕ × Setting)) → Worker D → Option ApplyError × Worker D
  apply_wanted (failed e) w = (some e, w)
  apply_wanted (applied desired) w = and_set desired (revoke_peers w.peers desired w)

  abbrev pub apply_users :
      ℕ → List (ℕ × WorkerUser) → Option ApplyError × Worker D → Option ApplyError × Worker D
  apply_users now users (some e, w) = (some e, w)
  apply_users now users (none, w) = apply_wanted (want_all now (parse_prefix w.pool) [] [] users) w

  abbrev pub keyed : ℕ → Option D → Worker D → Option ApplyError × Worker D
  keyed key none w = (some rejected, w)
  keyed key (some d) w = (none, record w { device = d; identity = some key })

  -- The identity of the device is set once.
  abbrev pub check_identity : Option ℕ → Option ℕ → Worker D → Option ApplyError × Worker D
  check_identity none none w = (some bad_key, w)
  check_identity none (some key) w = keyed key (device.ipc_set (configure key) w.device) w
  check_identity (some old) none w = (some identity_changed, w)
  check_identity (some old) (some key) w =
      if old == key then (none, w) else (some identity_changed, w)

  abbrev pub apply_to :
      Option (Option ℕ) → ℕ → WorkerState → Worker D → Option ApplyError × Worker D
  apply_to none now state w = (some not_provisioned, w)
  apply_to (some key) now state w = apply_users now state.users (check_identity w.identity key w)

  -- Worker.Apply.
  unfoldable pub apply : ℕ → WorkerState → Worker D → Option ApplyError × Worker D
  unfolding want_all revoke_peers set_peers parse_prefix
  apply now state w = apply_to state.identity now state w

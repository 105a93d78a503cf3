-- ===== src/Examples/Worker.antt =====
-- internal/awgserver/worker.go at concrete inputs: a device that keeps a table of its peers.
use quic_lab.Common.{ℕ, ◌≡◌, refl, false, Option, none, some, List, [], ◌∷◌, map}
use quic_lab.Common.Maps.{lookup, insert, delete}
use quic_lab.Common.Bytes.{same, member}
use quic_lab.Net.{parse_ip4, parse_prefix}
use quic_lab.AwgServer.{awg, enabled}
use quic_lab.AwgServer.Worker.{
  Setting, Command, Device, WorkerUser, WorkerState, enabled_peer, want_peer, want_all, PeerStatus,
  Worker, revoke_peers, set_peers, apply, configure, set_peer, remove_peer,
}

obey : Command → List (ℕ × Setting) → Option (List (ℕ × Setting))
obey (configure key) d = some d
obey (set_peer key s) d = some (insert key s d)
obey (remove_peer key) d = some (delete key d)

abbrev table_device : Device (List (ℕ × Setting))
table_device = record { ipc_set = obey }

abbrev held : List (ℕ × Setting) → ℕ → Option Setting
held d key = lookup key d

abbrev address_two : List ℕ
address_two = b'1' ∷ b'0' ∷ b'.' ∷ b'0' ∷ b'.' ∷ b'0' ∷ b'.' ∷ b'2' ∷ []

abbrev one_user : WorkerUser
one_user = record {
  id = 8;
  disabled = false;
  protocols = some (awg ∷ []);
  expires = 100;
  peer = some (record { public_key = some 77; psk = some 5; address = address_two });
}

abbrev one_account : WorkerState
one_account = record { identity = some (some 4); users = (8, one_user) ∷ [] }

-- The device still has the peer of a deleted account.
abbrev stale : Worker (List (ℕ × Setting))
stale = record {
  device = (66, record { psk = 1; address = [] }) ∷ [];
  pool = b'1' ∷ b'0' ∷ b'.' ∷ b'0' ∷ b'.' ∷ b'0' ∷ b'.' ∷ b'1' ∷ b'/' ∷ b'2' ∷ b'4' ∷ [];
  peers = (66, record { psk = 1; address = [] }) ∷ [];
  activity = [];
  identity = none;
}

replaces_peer : map (λ e. e.0) (apply table_device 50 one_account stale).1.device ≡ 77 ∷ []
unfolding apply want_all want_peer enabled_peer enabled member same revoke_peers set_peers
    parse_prefix parse_ip4 lookup insert delete obey
replaces_peer = refl

abbrev seen_before : PeerStatus
seen_before = record { id = some 8; source = []; handshake = 3; activity = 30; tx = 5; rx = 0 }

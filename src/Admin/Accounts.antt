-- ===== src/Admin/Accounts.antt =====
-- internal/admin/store.go and protocols.go: the operations on accounts.
use quic_lab.Common.{
  ℕ, ◌+◌, ◌*◌, Bool, true, false, not, ◌&&◌, ◌||◌, Option, none, some, List, [], ◌∷◌, ◌++◌, ltb,
  leb, ◌==◌, if◌then◌else◌, length, GoError, Result, foreign, message, err, ok,
}
use quic_lab.Common.Bytes.{same}
use quic_lab.Common.Maps.{lookup, insert, delete}
use quic_lab.AwgServer.{Config, Identity, Peer, awg, enabled}
use quic_lab.Admin.{User, Store, save, allows, Keys, provision_awg}

abbrev pub max_users : ℕ
max_users = 1000

abbrev pub day : ℕ
day = 86_400_000_000_000

abbrev pub bad_name : List ℕ → Bool
bad_name name = length name == 0 || ltb 100 (length name)

-- Some account other than `except` has the name.
unfoldable pub name_taken : Option ℕ → List ℕ → List (ℕ × User) → Bool
unfolding same
name_taken except name [] = false
name_taken none name ((id, u) ∷ m) = same u.name name || name_taken none name m
name_taken (some own) name ((id, u) ∷ m) =
    (not (id == own) && same u.name name) || name_taken (some own) name m

-- What a call of Create gets from outside: whether the key pair and the serial number could be made,
-- the clock, the random ID, the worker's keys, the texts of the certificate of (ID, expiry) and of
-- its key, and whether the save succeeds.
pub record Issuing : Type 0 where
  pub key_made : Bool
  pub serial_made : Bool
  pub now : ℕ
  pub id : ℕ
  pub keys : Keys
  pub certify : ℕ → ℕ → Option (List ℕ)
  pub key_text : Option (List ℕ)
  pub saved : Bool

abbrev pub blank_user : Issuing → List ℕ → Option (List (List ℕ)) → User
blank_user out name protocols = record {
  id = out.id;
  name = name;
  disabled = false;
  protocols = protocols;
  peer = none;
  last_connected = 0;
  last_transport = [];
  last_source = [];
  created = out.now;
  expires = out.now + 90 * day;
  certificate = [];
  key = [];
}

abbrev pub add_user : Bool → User → Store → Result User × Store
add_user true u s = (ok u, save true (record s { users = insert u.id u s.users }))
add_user false u s = (err foreign, record s { users = delete u.id (insert u.id u s.users) })

abbrev pub issue : Issuing → User → Option (List ℕ) → Option (List ℕ) → Store → Result User × Store
issue out u (some der) (some key) s =
    add_user out.saved (record u { certificate = der ++ s.ca_text; key = key }) s
issue out u der key s = (err foreign, s)

abbrev pub clip : ℕ → User → User
clip limit u = record u { expires = if ltb limit u.expires then limit else u.expires }

abbrev pub certify_user : Issuing → Result User → Store → Result User × Store
certify_user out (err e) s = (err e, s)
certify_user out (ok u) s =
    if not (ltb out.now (clip s.ca_expires u).expires)
    then (err (message "CA expired"), s)
    else issue out (clip s.ca_expires u) (out.certify u.id (clip s.ca_expires u).expires)
        out.key_text s

-- CreateWithProtocols.
unfoldable pub create : Issuing → List ℕ → Option (List (List ℕ)) → Store → Result User × Store
unfolding name_taken provision_awg insert delete
create out name protocols s =
    if bad_name name
    then (err (message "name must contain 1..100 bytes"), s)
    else if leb max_users (length s.users)
    then (err (message "user limit"), s)
    else if name_taken none name s.users
    then (err (message "name already exists"), s)
    else if not out.key_made || not out.serial_made
    then (err foreign, s)
    else certify_user out (provision_awg s out.keys (blank_user out name protocols)) s

-- The write of a changed account, and the old one back when the save fails.
abbrev pub replace_user : Bool → ℕ → User → User → Store → Option GoError × Store
replace_user true id old new s = (none, save true (record s { users = insert id new s.users }))
replace_user false id old new s =
    (some foreign, record s { users = insert id old (insert id new s.users) })

abbrev pub rename_found : Bool → ℕ → List ℕ → Option User → Store → Option GoError × Store
rename_found saved id name none s = (some (message "unknown user"), s)
rename_found saved id name (some old) s =
    if bad_name name
    then (some (message "name must contain 1..100 bytes"), s)
    else if name_taken (some id) name s.users
    then (some (message "name already exists"), s)
    else replace_user saved id old (record old { name = name }) s

unfoldable pub rename : Bool → ℕ → List ℕ → Store → Option GoError × Store
unfolding name_taken insert lookup
rename saved id name s = rename_found saved id name (lookup id s.users) s

abbrev pub unavailable : ℕ → User → Bool
unavailable now u = u.disabled || ltb u.expires now

unfoldable pub profile : ℕ → ℕ → Store → Result User
unfolding lookup
profile now id s = elim (lookup id s.users) [
  | none ↦ err (message "user unavailable")
  | some u ↦ if unavailable now u then err (message "user unavailable") else ok u
]

-- AWGProfile returns the text of the client's configuration, made from these three.
abbrev pub client_parts :
    ℕ → User → Option Peer → Option Config → Option Identity → Result (Config × Identity × Peer)
client_parts now u (some p) (some c) (some i) =
    if u.disabled || not (ltb now u.expires) || not (allows u awg)
    then err (message "AWG unavailable for this user")
    else ok (c, i, p)
client_parts now u p c i = err (message "AWG unavailable for this user")

unfoldable pub awg_profile : ℕ → ℕ → Store → Result (Config × Identity × Peer)
unfolding lookup enabled
awg_profile now id s = elim (lookup id s.users) [
  | none ↦ err (message "AWG unavailable for this user")
  | some u ↦ client_parts now u u.peer s.awg_config s.identity
]

-- The closers of an account's sessions.
abbrev pub connections : List (ℕ × ℕ) → List ℕ
connections [] = []
connections ((token, connection) ∷ m) = connection ∷ connections m

-- A missing entry of a map of maps reads as the empty map.
abbrev pub entries : Option (List (ℕ × ℕ)) → List (ℕ × ℕ)
entries none = []
entries (some m) = m

abbrev pub sessions_of : ℕ → Store → List (ℕ × ℕ)
sessions_of id s = entries (lookup id s.active)

abbrev pub delete_found : Bool → ℕ → Option User → Store → Option GoError × Store
delete_found saved id none s = (some (message "unknown user"), s)
delete_found true id (some u) s = (
  none,
  save true (record s {
    users = delete id s.users;
    active = delete id s.active;
    closed = s.closed ++ connections (sessions_of id s);
  }),
)
delete_found false id (some u) s =
    (some foreign, record s { users = insert id u (delete id s.users) })

-- Store.Delete, with the calls of the closers behind it.
unfoldable pub delete_user : Bool → ℕ → Store → Option GoError × Store
unfolding lookup insert delete
delete_user saved id s = delete_found saved id (lookup id s.users) s

-- `s.sessionProtocols[token]`, the empty text for a session that was registered without one.
abbrev pub text : Option (List ℕ) → List ℕ
text none = []
text (some p) = p

abbrev pub protocol_of : ℕ → Store → List ℕ
protocol_of token s = text (lookup token s.session_protocols)

-- The connections that SetProtocols closes.
unfoldable pub refused : Bool → User → Store → List (ℕ × ℕ) → List ℕ
unfolding lookup enabled
refused disabled u s [] = []
refused disabled u s ((token, connection) ∷ m) =
    let others = refused disabled u s m in
    if disabled || not (allows u (protocol_of token s)) then connection ∷ others else others

abbrev pub close_refused : Bool → ℕ → User → Option GoError × Store → Option GoError × Store
close_refused disabled id u (some e, s) = (some e, s)
close_refused disabled id u (none, s) =
    (none, record s { closed = s.closed ++ refused disabled u s (sessions_of id s) })

abbrev pub store_provisioned : Bool → ℕ → User → Bool → Result User → Store → Option GoError × Store
store_provisioned saved id old disabled (err e) s = (some e, s)
store_provisioned saved id old disabled (ok u) s =
    close_refused disabled id u (replace_user saved id old u s)

abbrev pub change : List (List ℕ) → Bool → User → User
change protocols disabled u = record u { protocols = some protocols; disabled = disabled }

abbrev pub change_found :
    Bool → Keys → ℕ → List (List ℕ) → Bool → Option User → Store → Option GoError × Store
change_found saved keys id protocols disabled none s = (some (message "unknown user"), s)
change_found saved keys id protocols disabled (some old) s =
    store_provisioned saved id old disabled (provision_awg s keys (change protocols disabled old)) s

unfoldable pub set_protocols :
    Bool → Keys → ℕ → List (List ℕ) → Bool → Store → Option GoError × Store
unfolding provision_awg lookup insert refused
set_protocols saved keys id protocols disabled s =
    change_found saved keys id protocols disabled (lookup id s.users) s

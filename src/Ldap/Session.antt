-- ===== src/Ldap/Session.antt =====
-- internal/ldapserver/server.go: bind, and the loop of handleConnection.
use infrastructure_in_a_box.Prelude.{
  ℕ, ◌+◌, Bool, true, false, ◌&&◌, ◌||◌, not, List, [], ◌∷◌, Option, none, some, if◌then◌else◌, ltb,
  leb, ◌==◌, length,
}
use infrastructure_in_a_box.Prelude.Text.{Text}
use infrastructure_in_a_box.Ldap.Packet.{
  Code, Packet, Packets, Envelope, nil, cons, kind_of, tag_of, children, text_of, is_primitive,
  is_octet_string, is_context, class_of, natural, tag_integer, is_success, request_envelope,
  validate_controls,
}
use infrastructure_in_a_box.Ldap.Directory.{Names}
use infrastructure_in_a_box.Ldap.Search.{Tick, End, finished, closed, Directory, search}

-- What the server keeps of a user, with the check of a password against the stored hash.
pub record User (Dn : Type 0) : Type 0 where
  pub dn : Dn
  pub disabled : Bool
  pub can_search : Bool
  pub has_bcrypt : Bool
  pub verify_bcrypt : Text → Bool
  pub verify_sha256 : Text → Bool

abbrev pub is_password : {Dn : Type 0} → User Dn → Text → Bool
is_password user password =
    if user.has_bcrypt
    then leb (length password) 72 && user.verify_bcrypt password
    else user.verify_sha256 password

-- The wait of a bind for its slot: the context ends, the slots are taken, or there is one.
pub data Slot : Type 0 where
  ended taken free : Slot

-- The loop of bind over the users: the first that is meant decides.
unfoldable pub check_password : {Dn : Type 0} → Names Dn → Dn → Text → List (User Dn) → Code × Bool
check_password names dn password [] = (Code.invalid_credentials, false)
check_password names dn password (user ∷ users) =
    let rest = check_password names dn password users in
    if not (names.same_dn user.dn dn) || user.disabled
    then rest
    else if is_password user password
    then (Code.success, user.can_search)
    else (Code.invalid_credentials, false)

abbrev pub check_slot :
    {Dn : Type 0} → Names Dn → List (User Dn) → Slot → Text → Option Dn → Code × Bool
check_slot names users slot password none = (Code.invalid_credentials, false)
check_slot names users slot password (some dn) = elim slot [
  | ended ↦ (Code.unavailable, false)
  | taken ↦ (Code.busy, false)
  | free ↦ check_password names dn password users
]

-- bind, behind the checks of its packets.
unfoldable pub check_bind :
    {Dn : Type 0} → Names Dn → List (User Dn) → Slot → Text → Text → Code × Bool
unfolding check_password
check_bind names users slot name password =
    if length name == 0 && length password == 0
    then (Code.success, false)
    else if length name == 0 || length password == 0 || ltb 1024 (length password)
    then (Code.invalid_credentials, false)
    else check_slot names users slot password (names.parse_dn name)

abbrev pub is_version_three : Option ℕ → Bool
is_version_three none = false
is_version_three (some version) = version == 3

-- bind.
abbrev pub bind_arguments : {Dn : Type 0} → Names Dn → List (User Dn) → Slot → Packets → Code × Bool
bind_arguments names users slot (cons version (cons name (cons auth nil))) =
    if not (is_version_three (natural tag_integer version)) || not (is_octet_string name)
    then (Code.protocol_error, false)
    else if not (is_context (class_of auth))
        || not (is_primitive (kind_of auth))
        || not (tag_of auth == 0)
    then (Code.auth_method_not_supported, false)
    else check_bind names users slot (text_of name) (text_of auth)
bind_arguments names users slot _ = (Code.protocol_error, false)

unfoldable pub bind : {Dn : Type 0} → Names Dn → List (User Dn) → Slot → Packet → Code × Bool
unfolding check_bind
bind names users slot op =
    if is_primitive (kind_of op)
    then (Code.protocol_error, false)
    else bind_arguments names users slot (children op)

abbrev pub max_bind_attempts : ℕ
max_bind_attempts = 20

-- A connection between two messages.
pub record Connection : Type 0 where
  pub can_search : Bool
  pub attempts : ℕ

-- A message with what the environment adds to it: the slot of a bind, the clock of a search, and
-- whether the answer can be written.
pub record Message : Type 0 where
  pub packet : Packet
  pub slot : Slot
  pub clock : ℕ → Tick
  pub is_written : Bool

-- The tags of the operations.
abbrev pub is_bind : Packet → Bool
is_bind op = tag_of op == 0

abbrev pub is_search : Packet → Bool
is_search op = tag_of op == 3

-- The requests that responseType knows, but for binds and searches.
abbrev pub is_refused : Packet → Bool
is_refused op =
    tag_of op == 6
    || tag_of op == 8
    || tag_of op == 10
    || tag_of op == 12
    || tag_of op == 14
    || tag_of op == 23

abbrev pub go_on : Bool → Connection → Option Connection
go_on is_written c = if is_written then some c else none

abbrev pub is_closed : End → Bool
is_closed (finished code) = false
is_closed closed = true

-- The switch of the loop. A connection that is closed is none.
unfoldable pub serve_operation :
    {Dn : Type 0}
    → Names Dn
    → Directory Dn
    → List (User Dn)
    → Message
    → Packet
    → Connection
    → Option Connection
unfolding bind search
serve_operation names directory users m op c =
    if is_bind op
    then (if leb max_bind_attempts c.attempts
        then none
        else go_on m.is_written
            (record { can_search = (bind names users m.slot op).1; attempts = c.attempts + 1 }))
    else if is_search op
    then (if is_closed (search names directory m.clock c.can_search op).ending
        then none
        else go_on m.is_written c)
    else go_on m.is_written c

abbrev pub reset : Packet → Connection → Connection
reset op c = if is_bind op then record c { can_search = false } else c

abbrev pub serve_envelope :
    {Dn : Type 0}
    → Names Dn
    → Directory Dn
    → List (User Dn)
    → Message
    → Option Envelope
    → Connection
    → Option Connection
serve_envelope names directory users m none c = none
serve_envelope names directory users m (some envelope) c =
    if tag_of envelope.op == 2
    then none
    else if tag_of envelope.op == 16
    then some c
    else if not (is_bind envelope.op || is_search envelope.op || is_refused envelope.op)
    then none
    else if not (is_success (validate_controls envelope.controls))
    then go_on m.is_written (reset envelope.op c)
    else serve_operation names directory users m envelope.op (reset envelope.op c)

-- One round of handleConnection, on a message that was read.
unfoldable pub serve_message :
    {Dn : Type 0}
    → Names Dn
    → Directory Dn
    → List (User Dn)
    → Connection
    → Message
    → Option Connection
unfolding request_envelope serve_operation
serve_message names directory users c m =
    serve_envelope names directory users m (request_envelope m.packet) c

abbrev pub new_connection : Connection
new_connection = record { can_search = false; attempts = 0 }

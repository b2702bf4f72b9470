-- ===== src/Ldap/Packet.antt =====
-- internal/ldapserver/protocol.go: the tests on decoded BER packets.
use infrastructure_in_a_box.Prelude.{
  ℕ, suc, Bool, true, false, ◌&&◌, ◌||◌, not, Option, none, some, if◌then◌else◌, ltb, ◌==◌,
}
use infrastructure_in_a_box.Prelude.Text.{Text, bytes, text_discrete, text_eq}

pub data Class : Type 0 where
  universal application context private_use : Class

pub data Kind : Type 0 where
  primitive constructed : Kind

-- What the BER decoder finds in a primitive packet: an integer, of which the sign matters only as
-- far as it is negative, a Boolean, or neither.
pub data Value : Type 0 where
  integer_value : ℕ → Value
  negative_value : Value
  boolean_value : Bool → Value
  no_value : Value

-- A decoded packet: class, kind, tag, value, the bytes of its data, and its children.
mutual
  pub data Packet : Type 0 where
    packet : Class → Kind → ℕ → Value → Text → Packets → Packet

  pub data Packets : Type 0 where
    nil : Packets
    cons : Packet → Packets → Packets

abbrev pub children : Packet → Packets
children (packet class kind tag value text inside) = inside

abbrev pub text_of : Packet → Text
text_of (packet class kind tag value text inside) = text

abbrev pub tag_of : Packet → ℕ
tag_of (packet class kind tag value text inside) = tag

abbrev pub value_of : Packet → Value
value_of (packet class kind tag value text inside) = value

abbrev pub class_of : Packet → Class
class_of (packet class kind tag value text inside) = class

abbrev pub kind_of : Packet → Kind
kind_of (packet class kind tag value text inside) = kind

abbrev pub count : Packets → ℕ
count nil = 0
count (cons p ps) = suc (count ps)

abbrev pub is_empty : Packets → Bool
is_empty nil = true
is_empty (cons p ps) = false

abbrev pub is_context : Class → Bool
is_context Class.context = true
is_context _ = false

abbrev pub is_universal : Class → Bool
is_universal Class.universal = true
is_universal _ = false

abbrev pub is_application : Class → Bool
is_application Class.application = true
is_application _ = false

abbrev pub is_primitive : Kind → Bool
is_primitive primitive = true
is_primitive constructed = false

abbrev tag_octet_string : ℕ
tag_octet_string = 4

abbrev pub tag_sequence : ℕ
tag_sequence = 16

abbrev pub tag_boolean : ℕ
tag_boolean = 1

abbrev pub tag_integer : ℕ
tag_integer = 2

abbrev pub tag_enumerated : ℕ
tag_enumerated = 10

-- isPacket, for the class universal, and for the class context.
abbrev pub is_universal_packet : Kind → ℕ → Packet → Bool
is_universal_packet primitive tag (packet class kind t value text inside) =
    is_universal class && is_primitive kind && t == tag
is_universal_packet constructed tag (packet class kind t value text inside) =
    is_universal class && not (is_primitive kind) && t == tag

abbrev pub is_context_packet : Kind → ℕ → Packet → Bool
is_context_packet primitive tag (packet class kind t value text inside) =
    is_context class && is_primitive kind && t == tag
is_context_packet constructed tag (packet class kind t value text inside) =
    is_context class && not (is_primitive kind) && t == tag

-- octetString.
abbrev pub is_octet_string : Packet → Bool
is_octet_string p = is_universal_packet primitive tag_octet_string p

-- integer, for the callers, which refuse a negative one.
abbrev pub natural_value : Value → Option ℕ
natural_value (integer_value n) = some n
natural_value _ = none

abbrev pub natural : ℕ → Packet → Option ℕ
natural tag p = if is_universal_packet primitive tag p then natural_value (value_of p) else none

abbrev max_message_id : ℕ
max_message_id = 2147483647

-- requestEnvelope: the message's number, its operation, and the controls behind it.
pub record Envelope : Type 0 where
  pub id : ℕ
  pub op : Packet
  pub controls : Packets

abbrev with_id : Packet → Packets → Option ℕ → Option Envelope
with_id op controls none = none
with_id op controls (some id) =
    if id == 0 || ltb max_message_id id || not (is_application (class_of op))
    then none
    else some (record { id = id; op = op; controls = controls })

abbrev envelope_of : Packets → Option Envelope
envelope_of (cons id (cons op nil)) = with_id op nil (natural tag_integer id)
envelope_of (cons id (cons op (cons controls nil))) =
    with_id op (cons controls nil) (natural tag_integer id)
envelope_of _ = none

unfoldable pub request_envelope : Packet → Option Envelope
request_envelope p =
    if is_universal_packet constructed tag_sequence p then envelope_of (children p) else none

-- validateControls. The codes of the protocol:
pub data Code : Type 0 where
  success protocol_error time_limit_exceeded size_limit_exceeded : Code
  auth_method_not_supported admin_limit_exceeded unavailable_critical_extension : Code
  inappropriate_matching no_such_object invalid_dn_syntax invalid_credentials : Code
  insufficient_access_rights busy unavailable unwilling_to_perform : Code

abbrev control_paging : Text
control_paging = bytes "1.2.840.113556.1.4.319"

abbrev pub is_set : Value → Bool
is_set (boolean_value b) = b
is_set _ = false

-- The value of a control, which is left after its name and its criticality.
abbrev has_control_value : Packets → Bool
has_control_value nil = true
has_control_value (cons p nil) = is_octet_string p
has_control_value (cons p (cons q ps)) = false

abbrev checked_control : Bool → Text → Packets → Code
checked_control critical name rest =
    if not (has_control_value rest)
    then Code.protocol_error
    else if critical
    then Code.unavailable_critical_extension
    else if text_eq name control_paging
    then Code.unwilling_to_perform
    else Code.success

abbrev control_of : Packets → Code
control_of nil = Code.protocol_error
control_of (cons name nil) =
    if is_octet_string name then checked_control false (text_of name) nil else Code.protocol_error
control_of (cons name (cons p rest)) =
    if not (is_octet_string name) || ltb 1 (count rest)
    then Code.protocol_error
    else if is_universal_packet primitive tag_boolean p
    then checked_control (is_set (value_of p)) (text_of name) rest
    else checked_control false (text_of name) (cons p rest)

abbrev pub is_success : Code → Bool
is_success Code.success = true
is_success _ = false

unfoldable pub check_controls : Packets → Code
unfolding text_discrete
check_controls nil = Code.success
check_controls (cons p ps) =
    let rest = check_controls ps in
    let code =
      if is_universal_packet constructed tag_sequence p
      then control_of (children p)
      else Code.protocol_error in
    if is_success code then rest else code

abbrev pub validate_controls : Packets → Code
validate_controls nil = Code.success
validate_controls (cons controls _) =
    if not (is_context_packet constructed 0 controls) || is_empty (children controls)
    then Code.protocol_error
    else check_controls (children controls)

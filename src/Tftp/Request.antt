-- ===== src/Tftp/Request.antt =====
-- internal/tftpserver/protocol.go.
use infrastructure_in_a_box.Prelude.{
  ℕ, ◌-◌, ◌%◌, Bool, ◌&&◌, ◌||◌, not, List, [], ◌∷◌, ◌++◌, map, Option, none, some, min,
  if◌then◌else◌, ltb, ◌==◌, any, all, length, take, drop, last_or,
}
use infrastructure_in_a_box.Prelude.Results.{Result, ok, err, ◌>>=◌, ◌>>◌, fail_if}
use infrastructure_in_a_box.Prelude.Text.{
  Text, Unicode, bytes, text_eq, split, contains_byte, lower_byte, to_lower,
}
use infrastructure_in_a_box.Prelude.Numbers.{parse_uint, itoa, uint16_at, put_uint16}
use infrastructure_in_a_box.Lease.State.{utf8_from}

abbrev pub op_read : ℕ
op_read = 1

abbrev pub op_write : ℕ
op_write = 2

abbrev pub op_data : ℕ
op_data = 3

abbrev pub op_ack : ℕ
op_ack = 4

abbrev pub op_error : ℕ
op_error = 5

abbrev pub op_option_ack : ℕ
op_option_ack = 6

abbrev pub max_request_size : ℕ
max_request_size = 512

abbrev pub default_block_size : ℕ
default_block_size = 512

abbrev pub max_block_size : ℕ
max_block_size = 1468

-- In seconds, as are all timeouts here.
abbrev pub default_timeout : ℕ
default_timeout = 3

pub record ProtocolError : Type 0 where
  pub code : ℕ
  pub message : Text

-- The options are the key and value pairs of the Go slice.
pub record ReadRequest : Type 0 where
  pub filename : Text
  pub block_size : ℕ
  pub timeout : ℕ
  pub options : List (Text × Text)

abbrev pub error_of : ℕ → Text → ProtocolError
error_of code message = record { code = code; message = message }

-- An element of a path that fs.ValidPath accepts.
abbrev pub valid_element : Text → Bool
valid_element e = not (length e == 0 || text_eq e (bytes ".") || text_eq e (bytes ".."))

-- utf8.ValidString.
abbrev pub valid_utf8 : Text → Bool
valid_utf8 s = utf8_from (record { more = 0; low = 0; high = 0 }) s

-- fs.ValidPath, less the path ".", which the caller refuses.
unfoldable pub valid_path : Text → Bool
valid_path name = valid_utf8 name && all valid_element (split b'/' name)

-- strings.EqualFold(mode, "octet"). No letter of "octet" folds to one outside ASCII.
abbrev pub is_octet : Text → Bool
is_octet mode = text_eq (map lower_byte mode) (bytes "octet")

abbrev pub defaults : Text → ReadRequest
defaults filename = record {
  filename = filename;
  block_size = default_block_size;
  timeout = default_timeout;
  options = [];
}

-- An option appended to those of the request.
abbrev pub add_option : ReadRequest → Text → Text → ReadRequest
add_option r key value = record r { options = r.options ++ ((key, value) ∷ []) }

abbrev pub within : ℕ → ℕ → Option ℕ → Option ℕ
within low high none = none
within low high (some n) = if ltb n low || ltb high n then none else some n

unfoldable pub set_block_size : ReadRequest → Text → Result ProtocolError ReadRequest
set_block_size r value = elim (within 8 65464 (parse_uint 16 value)) [
  | none ↦ err (error_of 8 (bytes "invalid blksize"))
  | some n ↦
      let size : ℕ = min n max_block_size in
      ok (add_option (record r { block_size = size }) (bytes "blksize") (itoa size))
]

unfoldable pub set_timeout : ReadRequest → Text → Result ProtocolError ReadRequest
set_timeout r value = elim (within 1 255 (parse_uint 8 value)) [
  | none ↦ err (error_of 8 (bytes "invalid timeout"))
  | some n ↦ ok (add_option (record r { timeout = n }) (bytes "timeout") value)
]

unfoldable pub set_transfer_size : ReadRequest → Text → Result ProtocolError ReadRequest
set_transfer_size r value = elim (within 0 0 (parse_uint 64 value)) [
  | none ↦ err (error_of 8 (bytes "read tsize must be zero"))
  | some n ↦ ok (add_option r (bytes "tsize") (bytes "0"))
]

-- The switch over the key. Other options are omitted.
unfoldable pub set_option : ReadRequest → Text → Text → Result ProtocolError ReadRequest
set_option r key value =
    if text_eq key (bytes "blksize")
    then set_block_size r value
    else if text_eq key (bytes "timeout")
    then set_timeout r value
    else if text_eq key (bytes "tsize")
    then set_transfer_size r value
    else ok r

-- The loop over the option fields, with the keys seen so far.
unfoldable pub parse_options :
    Unicode → ReadRequest → List Text → List Text → Result ProtocolError ReadRequest
parse_options u r seen [] = ok r
parse_options u r seen (field ∷ []) = ok r
parse_options u r seen (field ∷ value ∷ fields) = do
  let key = to_lower u field
  fail_if (length key == 0 || length value == 0 || any (λ k. text_eq k key) seen)
      (error_of 8 (bytes "invalid or duplicate option"))
  r' ← set_option r key value
  parse_options u r' (key ∷ seen) fields

abbrev pub is_odd : ℕ → Bool
is_odd n = n % 2 == 1

-- parseRequest, from the fields on.
unfoldable pub parse_fields : Unicode → List Text → Result ProtocolError ReadRequest
parse_fields u (filename ∷ mode ∷ options) = do
  fail_if (is_odd (length options)) (error_of 4 (bytes "malformed request fields"))
  fail_if
      (not (valid_path filename) || text_eq filename (bytes ".") || contains_byte b'\\' filename)
      (error_of 2 (bytes "filename must be a valid relative path"))
  fail_if (not (is_octet mode)) (error_of 4 (bytes "only octet mode is supported"))
  parse_options u (defaults filename) [] options
parse_fields u _ = err (error_of 4 (bytes "malformed request fields"))

-- packet[2 : len(packet)-1], on a packet of three bytes or more.
abbrev pub body : Text → Text
body packet = take (length packet - 3) (drop 2 packet)

-- parseRequest.
unfoldable pub parse_request : Unicode → Text → Result ProtocolError ReadRequest
parse_request u packet = do
  fail_if
      (ltb (length packet) 4 || ltb max_request_size (length packet) || not (last_or packet 0 == 0))
      (error_of 4 (bytes "malformed request"))
  fail_if (not (uint16_at packet == op_read)) (error_of 4 (bytes "expected read request"))
  parse_fields u (split 0 (body packet))

-- The value of an acknowledged option: the file's size where the client asked for it.
abbrev pub option_value : ℕ → Text → Text → Text
option_value size key value = if text_eq key (bytes "tsize") then itoa size else value

unfoldable pub option_fields : ℕ → List (Text × Text) → Text
option_fields size [] = []
option_fields size ((key, value) ∷ options) =
    key ++ (0 ∷ (option_value size key value ++ (0 ∷ option_fields size options)))

-- optionAck: the empty packet stands for nil.
unfoldable pub option_ack : ReadRequest → ℕ → Text
option_ack r size = elim r.options [
  | [] ↦ []
  | o ∷ os ↦ 0 ∷ op_option_ack ∷ option_fields size r.options
]

-- errorPacket.
unfoldable pub error_packet : ℕ → Text → Text
error_packet code message = put_uint16 op_error ++ (put_uint16 code ++ (message ++ (0 ∷ [])))

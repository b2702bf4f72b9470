-- ===== src/Dhcp/Request.antt =====
-- A decoded request, and what internal/dhcpserver/server.go reads from it itself.
use infrastructure_in_a_box.Prelude.{
  ℕ, ◌+◌, ◌*◌, ◌/◌, ◌%◌, Bool, true, false, ◌&&◌, ◌||◌, [], ◌∷◌, ◌++◌, Option, none, some,
  if◌then◌else◌, ltb, ◌==◌, length, take, drop, ℕ_discrete,
}
use infrastructure_in_a_box.Prelude.Text.{Text, bytes}
use infrastructure_in_a_box.Prelude.Table.{Table, get}
use infrastructure_in_a_box.Prelude.Numbers.{itoa}
use infrastructure_in_a_box.Lease.Address.{Addr, invalid, v4}

-- dhcpv4.DHCPv4 as decoded by the DHCP package. A net.IP is its bytes.
pub record Request : Type 0 where
  pub op_code : ℕ
  pub hop_count : ℕ
  pub hw_type : ℕ
  pub hw_addr : Text
  pub client_ip : Text
  pub gateway_ip : Text
  pub options : Table ℕ Text

-- request.Options.Get(code)
abbrev pub option : Request → ℕ → Option Text
option r code = get ℕ_discrete code r.options

abbrev pub option_requested_ip : ℕ
option_requested_ip = 50

abbrev pub option_message_type : ℕ
option_message_type = 53

abbrev pub option_server_identifier : ℕ
option_server_identifier = 54

abbrev pub option_client_identifier : ℕ
option_client_identifier = 61

abbrev pub option_fqdn : ℕ
option_fqdn = 81

abbrev pub option_architecture : ℕ
option_architecture = 93

abbrev zeros : ℕ → Text → Bool
zeros n [] = true
zeros n (c ∷ s) = c == 0 && zeros n s

-- net.IP.To4: the empty slice stands for nil.
unfoldable pub to4 : Text → Text
to4 ip =
    if length ip == 4
    then ip
    else if length ip == 16 && zeros 10 (take 10 ip) && is_ones (take 2 (drop 10 ip))
    then drop 12 ip
    else []
  where
    is_ones : Text → Bool
    is_ones (a ∷ b ∷ []) = a == 0xff && b == 0xff
    is_ones _ = false

abbrev pub from_four : Text → Addr
from_four (a ∷ b ∷ c ∷ d ∷ []) =
    let n : ℕ = a * 16777216 + b * 65536 + c * 256 + d in if n == 0 then invalid else v4 n
from_four _ = invalid

-- ipv4: the zero Addr for anything but a specified IPv4 address.
unfoldable pub ipv4 : Text → Addr
unfolding to4
ipv4 ip = from_four (to4 ip)

abbrev pub hex_digit : ℕ → ℕ
hex_digit n = if ltb n 10 then b'0' + n else (n + 87)

-- hex.EncodeToString.
unfoldable pub hex : Text → Text
hex [] = []
hex (c ∷ s) = hex_digit (c / 16) ∷ hex_digit (c % 16) ∷ hex s

-- clientIdentifier: empty for a request without a usable identity.
unfoldable pub client_identifier : Request → Text
unfolding hex itoa ℕ_discrete get
client_identifier r = elim (option r option_client_identifier) [
  | some id ↦ if ltb (length id) 2 || ltb 255 (length id) then [] else bytes "id:" ++ hex id
  | none ↦
      if length r.hw_addr == 0 || ltb 16 (length r.hw_addr)
      then []
      else bytes "hw:" ++ (itoa r.hw_type ++ (bytes ":" ++ hex r.hw_addr))
]

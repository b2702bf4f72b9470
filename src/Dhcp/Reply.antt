-- ===== src/Dhcp/Reply.antt =====
-- internal/dhcpserver/server.go: reply and replyAddress, and internal/dhcpserver/pxe.go.
use infrastructure_in_a_box.Prelude.{
  ℕ, ◌*◌, ◌/◌, ◌%◌, Bool, true, false, ◌&&◌, ◌||◌, not, List, [], ◌∷◌, ◌++◌, Option, none, some,
  if◌then◌else◌, ◌==◌, length,
}
use infrastructure_in_a_box.Prelude.Text.{Text, bytes, dot, trim_suffix}
use infrastructure_in_a_box.Prelude.Numbers.{uint16_at}
use infrastructure_in_a_box.Lease.Address.{Addr, is_valid}
use infrastructure_in_a_box.Lease.State.{Lease}
use infrastructure_in_a_box.Dhcp.Request.{Request, option, option_architecture, ipv4}
use infrastructure_in_a_box.Dhcp.Hostname.{fqdn_reply}

-- dhcpv4.MessageType, as far as the server tells the types apart.
pub data MessageType : Type 0 where
  discover offer request ack nak release decline inform : MessageType
  other : ℕ → MessageType

-- Config. The prefix is given by its number of bits and its membership test.
pub record Config : Type 0 where
  pub server_ip : Addr
  pub subnet_bits : ℕ
  pub contains : Addr → Bool
  pub router : Addr
  pub domain : Text
  pub lease_duration : ℕ

-- The modifiers that the reply is built with, each named for the function of the DHCP package.
pub data Modifier : Type 0 where
  with_message_type : MessageType → Modifier
  server_identifier your_ip dns_server ntp_server router_option server_ip : Addr → Modifier
  broadcast : Modifier
  client_ip : Text → Modifier
  netmask : ℕ → Modifier
  root_ca_url tftp_server : Addr → Modifier
  domain_name domain_search host_name boot_file boot_file_header : Text → Modifier
  lease_time renew_time rebinding_time : ℕ → Modifier
  fqdn_option architecture_option : Text → Modifier

-- The boot loader for an architecture: none for one that is not supported.
abbrev pub boot_file_for : ℕ → Text
boot_file_for architecture =
    if architecture == 0
    then bytes "pxelinux.0"
    else if architecture == 7 || architecture == 9
    then bytes "bootx64.efi"
    else []

-- The loop over the architectures, two bytes each.
unfoldable pub first_supported : List ℕ → Option (Text × Text)
first_supported (a ∷ b ∷ architectures) =
    let rest = first_supported architectures in
    let filename = boot_file_for (uint16_at (a ∷ b ∷ [])) in
    if length filename == 0 then rest else some (filename, a ∷ b ∷ [])
first_supported _ = none

abbrev pub boot_modifiers : Config → Option (Text × Text) → List Modifier
boot_modifiers cfg none = []
boot_modifiers cfg (some (filename, architecture)) =
    server_ip cfg.server_ip
    ∷ tftp_server cfg.server_ip
    ∷ boot_file filename
    ∷ architecture_option architecture
    ∷ boot_file_header filename
    ∷ []

-- bootOptions.
unfoldable pub boot_options : Config → Request → List Modifier
unfolding first_supported
boot_options cfg r = elim (option r option_architecture) [
  | none ↦ []
  | some architectures ↦
      if length architectures == 0 || not (length architectures % 2 == 0)
      then []
      else boot_modifiers cfg (first_supported architectures)
]

-- What a lease or an offer adds.
unfoldable pub allocation_modifiers : Config → Request → Option Lease → List Modifier
unfolding boot_options fqdn_reply
allocation_modifiers cfg r none = []
allocation_modifiers cfg r (some l) =
    let fqdn = fqdn_reply r l.hostname in
    boot_options cfg r
    ++ ((your_ip l.ip
          ∷ lease_time cfg.lease_duration
          ∷ renew_time (cfg.lease_duration / 2)
          ∷ rebinding_time (cfg.lease_duration / 8 * 7)
          ∷ [])
        ++ ((if length l.hostname == 0
              then []
              else host_name (trim_suffix l.hostname (dot ∷ [])) ∷ [])
            ++ (if length fqdn == 0 then [] else fqdn_option fqdn ∷ [])))

-- What every reply but a NAK carries.
unfoldable pub network_modifiers : Config → Request → List Modifier
network_modifiers cfg r =
    (client_ip r.client_ip
      ∷ netmask cfg.subnet_bits
      ∷ dns_server cfg.server_ip
      ∷ ntp_server cfg.server_ip
      ∷ root_ca_url cfg.server_ip
      ∷ domain_name cfg.domain
      ∷ domain_search cfg.domain
      ∷ [])
    ++ (if is_valid cfg.router then router_option cfg.router ∷ [] else [])

-- The modifiers of reply: dhcpv4.NewReplyFromRequest applies them to the request's reply.
unfoldable pub reply_modifiers : Config → Request → MessageType → Option Lease → List Modifier
unfolding allocation_modifiers network_modifiers ipv4
reply_modifiers cfg r nak allocation =
    with_message_type nak ∷ server_identifier cfg.server_ip ∷ broadcast ∷ []
reply_modifiers cfg r kind allocation =
    with_message_type kind
    ∷ server_identifier cfg.server_ip
    ∷ (network_modifiers cfg r
        ++ (allocation_modifiers cfg r allocation
            ++ (if not (is_valid (ipv4 r.client_ip)) && not (is_valid (ipv4 r.gateway_ip))
                then broadcast ∷ []
                else [])))

-- Where a reply goes: the address, or the broadcast address, and the port.
pub record Destination : Type 0 where
  pub address : Option Addr
  pub port : ℕ

abbrev pub server_port : ℕ
server_port = 67

abbrev pub client_port : ℕ
client_port = 68

abbrev pub is_nak : MessageType → Bool
is_nak nak = true
is_nak _ = false

-- replyAddress.
unfoldable pub reply_address : Request → MessageType → Destination
unfolding ipv4
reply_address r kind =
    if is_valid (ipv4 r.gateway_ip)
    then record { address = some (ipv4 r.gateway_ip); port = server_port }
    else if not (is_nak kind) && is_valid (ipv4 r.client_ip)
    then record { address = some (ipv4 r.client_ip); port = client_port }
    else record { address = none; port = client_port }

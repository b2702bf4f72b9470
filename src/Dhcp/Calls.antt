-- ===== src/Dhcp/Calls.antt =====
-- Which calls of the lease manager a DHCP request makes.
use infrastructure_in_a_box.Prelude.{ℕ, ◌≤◌, ◌≡◌, ◌≢◌, Option, some, true, false, [], length}
use infrastructure_in_a_box.Prelude.Text.{Text, Unicode}
use infrastructure_in_a_box.Lease.Address.{Addr, is_valid}
use infrastructure_in_a_box.Lease.Persistence.{Disk}
use infrastructure_in_a_box.Lease.Manager.{Manager}
use infrastructure_in_a_box.Lease.Runs.{Call, offers, commits, releases, declines}
use infrastructure_in_a_box.Lease.Commits.{release, decline}
use infrastructure_in_a_box.Dhcp.Request.{Request, option, ipv4, client_identifier}
use infrastructure_in_a_box.Dhcp.Hostname.{client_hostname, fallback_hostname}
use infrastructure_in_a_box.Dhcp.Reply.{MessageType, discover, request, Config}
use infrastructure_in_a_box.Dhcp.Handler.{Library, option_length, Addresses, addresses_of}

-- RFC 2131, table 4: the call of the lease manager that a message asks for. An offer needs no
-- address of the client nor the choice of a server; a client renews the address that it has, and
-- only that, or else takes up one that it names; it gives back its own address, or turns down one
-- that it does not use, at this server.
pub data Permitted (server_ip : Addr) (client hostname fallback : Text)
    : MessageType → Addresses → Call → Type 0 where
  discovers :
      (a : Addresses)
      → is_valid a.current ≡ false
      → is_valid a.server ≡ false
      → Permitted server_ip client hostname fallback discover a
          (offers client a.requested hostname fallback)
  renews :
      (a : Addresses)
      → is_valid a.current ≡ true
      → is_valid a.requested ≡ false
      → is_valid a.server ≡ false
      → Permitted server_ip client hostname fallback request a
          (commits client a.current hostname fallback)
  selects :
      (a : Addresses)
      → is_valid a.current ≡ false
      → is_valid a.requested ≡ true
      → Permitted server_ip client hostname fallback request a
          (commits client a.requested hostname fallback)
  gives_back :
      (a : Addresses)
      → a.server ≡ server_ip
      → is_valid a.current ≡ true
      → Permitted server_ip client hostname fallback MessageType.release a
          (releases client a.current)
  turns_down :
      (a : Addresses)
      → a.server ≡ server_ip
      → is_valid a.requested ≡ true
      → is_valid a.current ≡ false
      → Permitted server_ip client hostname fallback MessageType.decline a
          (declines client a.requested)

module _ (u : Unicode) (cfg : Config) (now : ℕ) (disk : Disk) (m : Manager)
    (client hostname fallback : Text) where
  abbrev Asks : MessageType → Addresses → Type 0
  Asks kind a = (c : Call) × Permitted cfg.server_ip client hostname fallback kind a c

-- The option is missing or an IPv4 address.
abbrev IsAddress : Option Text → Type 0
IsAddress o = (raw : Text) → o ≡ some raw → length raw ≡ 4

-- A BOOTREQUEST over at most 16 relays, with a message type of one byte, whose addresses are such.
pub record IsWellFormed (r : Request) : Type 0 where
  pub boots : r.op_code ≡ 1
  pub hops : r.hop_count ≤ 16
  pub requested : IsAddress (option r 50)
  pub server : IsAddress (option r 54)
  pub typed : option_length (option r 53) ≡ 1

module _ {Reply : Type 0} (lib : Library Reply) (u : Unicode) (cfg : Config) (now : ℕ) (disk : Disk)
    (m : Manager) (r : Request) where
  -- The packet is a well-formed request of a client that names itself, through a relay of the
  -- subnet if through one, and meant for this server if for one.
  pub record IsForUs : Type 0 where
    pub well_formed : IsWellFormed r
    pub identified : client_identifier r ≢ []
    pub near : is_valid (ipv4 r.gateway_ip) ≡ true → cfg.contains (ipv4 r.gateway_ip) ≡ true
    pub ours :
        is_valid (ipv4 (lib.server_identifier r)) ≡ true
        → ipv4 (lib.server_identifier r) ≡ cfg.server_ip

  -- The call that the packet asks for.
  abbrev pub IsPermitted : Call → Type 0
  IsPermitted c =
      Permitted cfg.server_ip (client_identifier r) (client_hostname lib.host_name r)
        (fallback_hostname lib.sha256 (client_identifier r)) (lib.message_type r)
        (addresses_of lib u cfg r) c

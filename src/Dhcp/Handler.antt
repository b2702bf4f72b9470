-- ===== src/Dhcp/Handler.antt =====
-- internal/dhcpserver/server.go: Handle, over the lease manager.
use infrastructure_in_a_box.Prelude.{
  ℕ, Bool, true, ◌&&◌, ◌||◌, not, List, Option, none, some, if◌then◌else◌, ltb, ◌==◌, length,
}
use infrastructure_in_a_box.Prelude.Results.{Result, ok, err}
use infrastructure_in_a_box.Prelude.Text.{Text, Unicode}
use infrastructure_in_a_box.Lease.Address.{Addr, addr_eq, is_valid}
use infrastructure_in_a_box.Lease.State.{Lease}
use infrastructure_in_a_box.Lease.Persistence.{Disk}
use infrastructure_in_a_box.Lease.Manager.{
  Manager, Error, pool_exhausted, unavailable, persist_failed,
}
use infrastructure_in_a_box.Lease.Offers.{offer_with_fallback}
use infrastructure_in_a_box.Lease.Commits.{commit_with_fallback, release, decline}
use infrastructure_in_a_box.Dhcp.Request.{
  Request, option, option_requested_ip, option_server_identifier, option_message_type, ipv4,
  client_identifier,
}
use infrastructure_in_a_box.Dhcp.Hostname.{client_hostname, fallback_hostname}
use infrastructure_in_a_box.Dhcp.Reply.{
  MessageType, discover, offer, request, ack, nak, inform, Config, Modifier, reply_modifiers,
}

-- What the server uses of the DHCP package, and SHA-256. `build` is NewReplyFromRequest.
pub record Library (Reply : Type 0) : Type 0 where
  pub message_type : Request → MessageType
  pub server_identifier : Request → Text
  pub requested_ip : Request → Text
  pub host_name : Request → Text
  pub build : Request → List Modifier → Option Reply
  pub sha256 : Text → Text

-- What a request comes to, before the reply is built: nothing, an error of the lease manager, or a
-- reply of a type, with the lease or offer that it tells of.
pub data Decision : Type 0 where
  silent : Decision
  fails : Error → Decision
  answers : MessageType → Option Lease → Decision

-- The addresses of a request: the server that it names, the one it requests and the one it has.
pub record Addresses : Type 0 where
  pub server : Addr
  pub requested : Addr
  pub current : Addr

-- A missing option, or one of four bytes.
abbrev pub is_address_option : Option Text → Bool
is_address_option none = true
is_address_option (some raw) = length raw == 4

abbrev pub option_length : Option Text → ℕ
option_length none = 0
option_length (some raw) = length raw

-- The tests at the head of Handle, on the packet alone.
unfoldable pub is_well_formed : Request → Bool
is_well_formed r =
    r.op_code == 1
    && not (ltb 16 r.hop_count)
    && is_address_option (option r option_requested_ip)
    && is_address_option (option r option_server_identifier)
    && option_length (option r option_message_type) == 1

-- What an answer of OfferWithFallback, CommitWithFallback, Release and Decline leads to.
abbrev pub after_offer : Manager × Result Error Lease → Manager × Decision
after_offer (m, ok l) = (m, answers offer (some l))
after_offer (m, err pool_exhausted) = (m, silent)
after_offer (m, err e) = (m, fails e)

abbrev pub after_commit : Manager × Result Error Lease → Manager × Decision
after_commit (m, ok l) = (m, answers ack (some l))
after_commit (m, err (persist_failed stage)) = (m, fails (persist_failed stage))
after_commit (m, err e) = (m, answers nak none)

abbrev pub after_removal : Manager × Result Error (Unit {0}) → Manager × Decision
after_removal (m, ok _) = (m, silent)
after_removal (m, err unavailable) = (m, silent)
after_removal (m, err e) = (m, fails e)

module _ (u : Unicode) (cfg : Config) (now : ℕ) (disk : Disk) (m : Manager)
    (client hostname fallback : Text) where
  -- The switch on the message type.
  unfoldable pub dispatch : MessageType → Addresses → Manager × Decision
  dispatch discover a =
      if is_valid a.current || is_valid a.server
      then (m, silent)
      else after_offer (offer_with_fallback u now m client a.requested hostname fallback)
  dispatch request a =
      if is_valid a.current
      then (if is_valid a.requested || is_valid a.server
          then (m, silent)
          else after_commit (commit_with_fallback u now disk m client a.current hostname fallback))
      else if not (is_valid a.requested)
      then (m, silent)
      else after_commit (commit_with_fallback u now disk m client a.requested hostname fallback)
  dispatch MessageType.release a =
      if not (addr_eq a.server cfg.server_ip) || not (is_valid a.current)
      then (m, silent)
      else after_removal (release now disk m client a.current)
  dispatch MessageType.decline a =
      if not (addr_eq a.server cfg.server_ip) || not (is_valid a.requested) || is_valid a.current
      then (m, silent)
      else after_removal (decline now disk m client a.requested)
  dispatch inform a =
      if not (is_valid a.current) || not (cfg.contains a.current)
      then (m, silent)
      else (m, answers ack none)
  dispatch _ a = (m, silent)

-- What Handle returns: no reply, a reply, or an error.
pub data Handled (Reply : Type 0) : Type 0 where
  no_reply build_failed : Handled Reply
  replies : Reply → Handled Reply
  manager_failed : Error → Handled Reply

abbrev pub built : {Reply : Type 0} → Option Reply → Handled Reply
built none = build_failed
built (some p) = replies p

module _ {Reply : Type 0} (lib : Library Reply) (u : Unicode) (cfg : Config) where
  abbrev pub addresses_of : Request → Addresses
  addresses_of r = record {
    server = ipv4 (lib.server_identifier r);
    requested = ipv4 (lib.requested_ip r);
    current = ipv4 r.client_ip;
  }

  -- Handle, up to the reply.
  unfoldable pub decide : ℕ → Disk → Manager → Request → Manager × Decision
  unfolding is_well_formed dispatch
  decide now disk m r =
      let client = client_identifier r in
      let relay = ipv4 r.gateway_ip in
      let a = addresses_of r in
      if not (is_well_formed r) || length client == 0
      then (m, silent)
      else if is_valid relay && not (cfg.contains relay)
      then (m, silent)
      else if is_valid a.server && not (addr_eq a.server cfg.server_ip)
      then (m, silent)
      else dispatch u cfg now disk m client (client_hostname lib.host_name r)
          (fallback_hostname lib.sha256 client) (lib.message_type r) a

  unfoldable pub reply : Request → Decision → Handled Reply
  unfolding reply_modifiers
  reply r silent = no_reply
  reply r (fails e) = manager_failed e
  reply r (answers kind allocation) = built (lib.build r (reply_modifiers cfg r kind allocation))

  -- Handle.
  unfoldable pub handle : ℕ → Disk → Manager → Request → Manager × Handled Reply
  unfolding decide reply
  handle now disk m r = let d = decide now disk m r in (d.0, reply r d.1)

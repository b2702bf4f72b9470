-- ===== src/Dhcp/Examples.antt =====
-- Concrete cases of the theorems on the DHCP server.
use infrastructure_in_a_box.Prelude.{List, ◌≡◌, refl, [], ◌∷◌, ◌++◌, arith}
use infrastructure_in_a_box.Prelude.Text.{Text, bytes, dot, split}
use infrastructure_in_a_box.Names.Labels.{valid_dns_name}
use infrastructure_in_a_box.Dhcp.Hostname.{fqdn_name, fqdn_answer, client_hostname}
use infrastructure_in_a_box.Prelude.{
  ℕ, true, Option, none, some, ◌==◌, if◌then◌else◌, ℕ_discrete, get_or,
}
use infrastructure_in_a_box.Prelude.Text.{Unicode, to_lower, trim_space, trim_suffix}
use infrastructure_in_a_box.Prelude.Table.{get}
use infrastructure_in_a_box.Lease.Address.{v4}
use infrastructure_in_a_box.Lease.State.{Lease, new_state}
use infrastructure_in_a_box.Lease.Invariant.{new_state-IsSound}
use infrastructure_in_a_box.Lease.Persistence.{Disk, missing}
use infrastructure_in_a_box.Lease.Manager.{Manager, expired}
use infrastructure_in_a_box.Lease.Commits.{commit_with_fallback}
use infrastructure_in_a_box.Lease.Valid.{IsValid}
use infrastructure_in_a_box.Lease.Effects.{IsCommitted}
use infrastructure_in_a_box.Dhcp.Request.{Request, option, client_identifier, ipv4}
use infrastructure_in_a_box.Dhcp.Reply.{request, other, Config, Modifier}
use infrastructure_in_a_box.Dhcp.Handler.{Library, decide, handle}
use infrastructure_in_a_box.Dhcp.Handling.{acknowledged-IsCommitted}
use infrastructure_in_a_box.Names.Hostname.{qualify, normalize_hostname}
use infrastructure_in_a_box.Dhcp.Wire.{answered_name}

-- An option in wire form.
abbrev raw : Text
raw = 5 ∷ 0 ∷ 0 ∷ []

answered_name_example :
    fqdn_name (fqdn_answer raw (bytes "desk.box.lan" ++ (dot ∷ []))) ≡ bytes "desk.box.lan"
unfolding valid_dns_name split
answered_name_example = answered_name raw (bytes "desk.box.lan") (omega arith) refl

abbrev plain : Unicode
plain = record { lower = λ s. s; trim = λ s. s }

abbrev bytes_of : Option Text → Text
bytes_of none = []
bytes_of (some raw) = raw

-- A reading of the options in the way of the DHCP package; a reply is its modifiers.
abbrev library : Library (List Modifier)
library = record {
  message_type = λ r. if get_or (bytes_of (option r 53)) 0 0 == 3 then request else other 0;
  server_identifier = λ r. bytes_of (option r 54);
  requested_ip = λ r. bytes_of (option r 50);
  host_name = λ r. bytes_of (option r 12);
  build = λ r modifiers. some modifiers;
  sha256 = λ s. s;
}

abbrev config : Config
config = record {
  server_ip = v4 3232235777;
  subnet_bits = 24;
  contains = λ a. true;
  router = v4 3232235777;
  domain = bytes "box.lan";
  lease_duration = 3600;
}

abbrev manager : Manager
manager = record {
  cfg = record {
    pool_start = v4 3232235786;
    pool_end = v4 3232235796;
    domain = bytes "box.lan";
    lease_duration = 3600;
    offer_duration = 60;
    decline_duration = 600;
    file = bytes "leases.json";
  };
  reserved = [];
  state = new_state;
  file = missing;
}

manager-IsValid : IsValid manager
unfolding valid_dns_name split
manager-IsValid = record {
  config = record {
    first = 3232235786;
    last = 3232235796;
    starts = refl;
    ends = refl;
    ordered = omega arith;
    range = omega arith;
    domain = refl;
  };
  sound = new_state-IsSound manager.cfg [];
}

-- A REQUEST for 192.168.1.10 of the server with the given number at the end of its address.
abbrev asks : ℕ → Request
asks last = record {
  op_code = 1;
  hop_count = 0;
  hw_type = 1;
  hw_addr = 2 ∷ 0 ∷ 0 ∷ 0 ∷ 0 ∷ 1 ∷ [];
  client_ip = [];
  gateway_ip = [];
  options =
      (53, 3 ∷ [])
      ∷ (54, 192 ∷ 168 ∷ 1 ∷ last ∷ [])
      ∷ (50, 192 ∷ 168 ∷ 1 ∷ 10 ∷ [])
      ∷ (12, bytes "desk")
      ∷ [];
}

abbrev fine : Disk
fine = record { failure = none }

abbrev desk_lease : Lease
desk_lease = record {
  client_id = bytes "hw:1:020000000001";
  ip = v4 3232235786;
  hostname = bytes "desk.box.lan.";
  expires_at = 3605;
}

acknowledged-IsCommitted_example :
    IsCommitted
      (expired 5 manager)
      (handle library plain config 5 fine manager (asks 1)).0
      (client_identifier (asks 1))
      desk_lease
unfolding decide get ℕ_discrete ipv4 commit_with_fallback normalize_hostname qualify
    client_identifier client_hostname valid_dns_name to_lower trim_suffix trim_space
acknowledged-IsCommitted_example =
    acknowledged-IsCommitted library plain config 5 fine manager (asks 1) desk_lease manager-IsValid
      refl

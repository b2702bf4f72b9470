-- ===== src/Dns/Examples.antt =====
-- Concrete cases of the theorems on the DNS server.
use infrastructure_in_a_box.Prelude.{
  ◌≡◌, ◌≤◌, ◌<◌, refl, true, false, List, [], ◌∷◌, none, if◌then◌else◌, ◌==◌, length, arith,
}
use infrastructure_in_a_box.Prelude.Text.{
  Text, Unicode, bytes, dot, text_discrete, split, to_lower, trim_space, trim_suffix,
}
use infrastructure_in_a_box.Prelude.Table.{get}
use infrastructure_in_a_box.Names.Labels.{valid_dns_name}
use infrastructure_in_a_box.Names.Hostname.{qualify, normalize_hostname}
use infrastructure_in_a_box.Lease.Address.{Addr, v4}
use infrastructure_in_a_box.Lease.State.{Lease, new_state}
use infrastructure_in_a_box.Lease.Invariant.{new_state-IsSound}
use infrastructure_in_a_box.Lease.Persistence.{missing}
use infrastructure_in_a_box.Lease.Manager.{Manager}
use infrastructure_in_a_box.Lease.Commits.{commit_with_fallback}
use infrastructure_in_a_box.Lease.Runs.{Timed, commits, run, perform, run-IsValid}
use infrastructure_in_a_box.Lease.Valid.{IsValid}
use infrastructure_in_a_box.Lease.Queries.{lookup_name}
use infrastructure_in_a_box.Prelude.Table.{Table}
use infrastructure_in_a_box.Names.Labels.{valid_hostname}
use infrastructure_in_a_box.Prelude.Table.{put}
use infrastructure_in_a_box.Names.Record.{normalize_a_record}
use infrastructure_in_a_box.Dns.Records.{
  IsNormalized, normalize_record, normalize_a_records, normalize_a_records-IsNormalized,
}
use infrastructure_in_a_box.Dns.Zone.{
  Zone, Registry, bare, has_name, from_record, lookup_local_address, lease_ttl, wildcard,
}
use infrastructure_in_a_box.Prelude.Text.{has_suffix, join}
use infrastructure_in_a_box.Prelude.Numbers.{parse_uint, itoa}
use infrastructure_in_a_box.Dns.Serving.{reverse_authority}
use infrastructure_in_a_box.Dns.Wildcards.{
  above, further, registry_of, wildcard_answers, lease_below_blocks_wildcards,
  registered_name_resolves,
}

abbrev plain : Unicode
plain = record { lower = λ s. s; trim = λ s. s }

-- The rest of a name behind its first dot.
unfoldable parent : Text → Text
parent [] = []
parent (c ∷ s) = let rest = parent s in if c == dot then s else rest

parent-le : (s : Text) → length (parent s) ≤ length s
unfolding parent
parent-le [] = omega arith
parent-le (c ∷ s) = ground (arith, parent-le s)

parent-lt : (s : Text) → 0 < length s → length (parent s) < length s
unfolding parent
parent-lt [] h = absurd (omega arith)
parent-lt (c ∷ s) h = ground (arith, parent-le s)

abbrev domain : Text
domain = bytes "box.lan."

abbrev zone : Zone
zone = record {
  domain = domain;
  server_ip = v4 1;
  records = (bytes "*.apps.box.lan.", v4 9) ∷ [];
  static_names = bytes "." ∷ domain ∷ bytes "*.apps.box.lan." ∷ bytes "apps.box.lan." ∷ [];
  ttl = 60;
}

abbrev silent : Registry
silent = record { lookup_name = λ n. none; has_name = λ n. false; lookup_ip = λ a. none }

wildcard_answers_example :
    lookup_local_address parent zone silent 5 (bytes "a.b.apps.box.lan.")
    ≡ from_record parent zone silent 5
        (get text_discrete (wildcard (bytes "apps.box.lan.")) zone.records)
unfolding has_name parent get text_discrete
wildcard_answers_example =
    wildcard_answers parent zone silent 5 (bytes "a.b.apps.box.lan.") (bytes "apps.box.lan.")
      parent-lt (record { not_ns = refl; not_gateway = refl; no_record = refl; not_apex = refl })
      refl refl
      (further (bytes "a.b.apps.box.lan.") (bytes "apps.box.lan.") (omega arith) refl refl
        (above (bytes "b.apps.box.lan.") (omega arith) refl refl))

abbrev empty : Manager
empty = record {
  cfg = record {
    pool_start = v4 10;
    pool_end = v4 11;
    domain = bytes "box.lan";
    lease_duration = 3600;
    offer_duration = 60;
    decline_duration = 600;
    file = [];
  };
  reserved = [];
  state = new_state;
  file = missing;
}

empty-IsValid : IsValid empty
unfolding valid_dns_name split
empty-IsValid = record {
  config = record {
    first = 10;
    last = 11;
    starts = refl;
    ends = refl;
    ordered = omega arith;
    range = omega arith;
    domain = refl;
  };
  sound = new_state-IsSound empty.cfg [];
}

abbrev calls : List Timed
calls =
    record {
      now = 1;
      disk = record { failure = none };
      call = commits (bytes "id:01") (v4 10) (bytes "desk") [];
    }
    ∷ []

abbrev desk : Lease
desk = record {
  client_id = bytes "id:01";
  ip = v4 10;
  hostname = bytes "desk.box.lan.";
  expires_at = 3601;
}

registered_name_resolves_example :
    lookup_local_address parent zone
      (registry_of plain 2 (run plain empty calls))
      2
      (bytes "desk.box.lan.")
    ≡ record { address = v4 10; ttl = lease_ttl 60 2 desk; exists_name = true }
unfolding run perform commit_with_fallback get text_discrete normalize_hostname qualify
    valid_dns_name to_lower trim_suffix trim_space
registered_name_resolves_example =
    registered_name_resolves parent zone plain 2 (run plain empty calls) (bytes "desk.box.lan.")
      desk (run-IsValid plain empty calls empty-IsValid) refl (omega arith) refl (λ e. cc)
      (record { not_ns = refl; not_gateway = refl; no_record = refl; not_apex = refl })

-- A lease below `desk`, and a wildcard that would answer for it.
abbrev nested_calls : List Timed
nested_calls =
    record {
      now = 1;
      disk = record { failure = none };
      call = commits (bytes "id:01") (v4 10) (bytes "a.desk.box.lan") [];
    }
    ∷ []

abbrev nested : Lease
nested = record {
  client_id = bytes "id:01";
  ip = v4 10;
  hostname = bytes "a.desk.box.lan.";
  expires_at = 3601;
}

abbrev open_zone : Zone
open_zone = record zone { records = (bytes "*.box.lan.", v4 9) ∷ [] }

lease_below_blocks_wildcards_example :
    lookup_local_address parent open_zone
      (registry_of plain 2 (run plain empty nested_calls))
      2
      (bytes "desk.box.lan.")
    ≡ bare
unfolding run perform commit_with_fallback get text_discrete normalize_hostname qualify
    valid_dns_name to_lower trim_suffix trim_space lookup_name
lease_below_blocks_wildcards_example =
    lease_below_blocks_wildcards parent open_zone plain 2 (run plain empty nested_calls)
      (bytes "desk.box.lan.") (bytes "a") nested
      (run-IsValid plain empty nested_calls empty-IsValid) refl (omega arith) refl (λ e. cc) refl
      refl (record { not_ns = refl; not_gateway = refl; no_record = refl; not_apex = refl })

abbrev configured : Table Text Addr
configured = (bytes "*.apps", v4 3232235900) ∷ (bytes "Nas", v4 3232235901) ∷ []

abbrev normalized : Table Text Addr
normalized = (bytes "nas.box.lan.", v4 3232235901) ∷ (bytes "*.apps.box.lan.", v4 3232235900) ∷ []

normalize_a_records-IsNormalized_example : IsNormalized plain domain configured normalized
unfolding normalize_a_records normalize_record normalize_a_record valid_hostname text_discrete
    to_lower trim_suffix get put
normalize_a_records-IsNormalized_example =
    normalize_a_records-IsNormalized plain domain configured normalized refl

-- A subnet of 24 bits owns the zone of its three octets.
test_reverse :
    reverse_authority 24 (λ a. true) (bytes "10.1.168.192.in-addr.arpa.")
    ≡ record { zone = bytes "1.168.192.in-addr.arpa."; address = v4 3232235786 }
unfolding reverse_authority has_suffix text_discrete split trim_suffix parse_uint itoa join
test_reverse = refl

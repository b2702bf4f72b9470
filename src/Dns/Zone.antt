-- ===== src/Dns/Zone.antt =====
-- internal/dnsserver/server.go: lookupLocalAddress, lookupExternalAddress, hasName and leaseTTL.
use infrastructure_in_a_box.Prelude.{
  ℕ, zero, suc, ◌-◌, ◌/◌, Bool, true, false, ◌||◌, List, ◌++◌, Option, none, some, min,
  if◌then◌else◌, ltb, any, length,
}
use infrastructure_in_a_box.Prelude.Text.{Text, bytes, text_discrete, text_eq}
use infrastructure_in_a_box.Prelude.Table.{Table, get}
use infrastructure_in_a_box.Lease.Address.{Addr, invalid}
use infrastructure_in_a_box.Lease.State.{Lease}

-- What the server keeps of its configuration. The domain ends in a dot; the TTL is in seconds.
pub record Zone : Type 0 where
  pub domain : Text
  pub server_ip : Addr
  pub records : Table Text Addr
  pub static_names : List Text
  pub ttl : ℕ

-- The Registry interface: the lease manager, as it answers within one query.
pub record Registry : Type 0 where
  pub lookup_name : Text → Option Lease
  pub has_name : Text → Bool
  pub lookup_ip : Addr → Option Lease

-- An address with its TTL, and whether the name exists.
pub record Found : Type 0 where
  pub address : Addr
  pub ttl : ℕ
  pub exists_name : Bool

abbrev pub nothing : Found
nothing = record { address = invalid; ttl = 0; exists_name = false }

-- The name exists, without an address.
abbrev pub bare : Found
bare = record { address = invalid; ttl = 0; exists_name = true }

abbrev second : ℕ
second = 1_000_000_000

-- leaseTTL: whole seconds, at most the zone's TTL.
unfoldable pub lease_ttl : ℕ → ℕ → Lease → ℕ
lease_ttl ttl now l = min ((l.expires_at - now) / second) ttl

abbrev pub is_in : Text → List Text → Bool
is_in name names = any (λ n. text_eq n name) names

abbrev pub live : ℕ → Option Lease → Option Lease
live now none = none
live now (some l) = if ltb now l.expires_at then some l else none

abbrev pub wildcard : Text → Text
wildcard name = bytes "*." ++ name

-- `parent` is dns.NextLabel: the name from its second label on.
module _ (parent : Text → Text) (z : Zone) (registry : Registry) (now : ℕ) where
  -- hasName.
  unfoldable pub has_name : Text → Bool
  has_name name = is_in name z.static_names || registry.has_name name

  abbrev pub from_record : Option Addr → Found
  from_record none = record { address = invalid; ttl = z.ttl; exists_name = false }
  from_record (some a) = record { address = a; ttl = z.ttl; exists_name = true }

  -- The loop to the closest name above that exists, with fuel for its rounds.
  unfoldable pub climb : ℕ → Text → Found
  climb zero name = nothing
  climb (suc fuel) name =
      let rest = climb fuel (parent name) in
      if text_eq name z.domain
      then nothing
      else if has_name (parent name)
      then from_record (get text_discrete (wildcard (parent name)) z.records)
      else rest

  -- lookupLocalAddress, for a name that has neither a record nor a lease.
  abbrev pub below_leases : Text → Found
  below_leases name = if has_name name then bare else climb (length name) name

  abbrev pub from_lease : Text → Option Lease → Found
  from_lease name none = below_leases name
  from_lease name (some l) = record {
    address = l.ip;
    ttl = lease_ttl z.ttl now l;
    exists_name = true;
  }

  abbrev pub below_records : Text → Option Addr → Found
  below_records name (some a) = record { address = a; ttl = z.ttl; exists_name = true }
  below_records name none =
      if text_eq name z.domain then bare else from_lease name (live now (registry.lookup_name name))

  -- lookupLocalAddress.
  unfoldable pub lookup_local_address : Text → Found
  lookup_local_address name =
      if text_eq name (bytes "ns." ++ z.domain) || text_eq name (bytes "gateway." ++ z.domain)
      then record { address = z.server_ip; ttl = z.ttl; exists_name = true }
      else below_records name (get text_discrete name z.records)

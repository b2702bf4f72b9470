-- ===== src/Dns/Wildcards.antt =====
-- When a wildcard of the local zone answers.
use infrastructure_in_a_box.Prelude.{
  ℕ, zero, suc, ◌≡◌, ◌≤◌, ◌<◌, refl, ◌≢◌, true, false, none, some, length, arith, ◌++◌, [], ◌∷◌,
}
use infrastructure_in_a_box.Prelude.Text.{
  Text, Unicode, bytes, dot, text_discrete, text_eq, to_lower, trim_suffix,
}
use infrastructure_in_a_box.Prelude.Table.{get}
use infrastructure_in_a_box.Lease.State.{Lease}
use infrastructure_in_a_box.Lease.Manager.{Manager, lease_of}
use infrastructure_in_a_box.Lease.Valid.{IsValid}
use infrastructure_in_a_box.Lease.Queries.{lookup_name, lookup_ip}
use infrastructure_in_a_box.Lease.Queries
use infrastructure_in_a_box.Lease.Lookups.{lookup_name_iff, has_name_below}
use infrastructure_in_a_box.Names.Hostname.{normalize_hostname}
use infrastructure_in_a_box.Dns.Zone.{
  Zone, Registry, bare, lease_ttl, has_name, from_record, climb, wildcard, live,
  lookup_local_address,
}

module _ (parent : Text → Text) (z : Zone) (registry : Registry) (now : ℕ) where
  -- `a` is the closest name above `name`, within the zone, that exists.
  pub data IsClosest : Text → Text → Type 0 where
    above :
        (name : Text)
        → 0 < length name
        → text_eq name z.domain ≡ false
        → has_name parent z registry now (parent name) ≡ true
        → IsClosest name (parent name)
    further :
        (name a : Text)
        → 0 < length name
        → text_eq name z.domain ≡ false
        → has_name parent z registry now (parent name) ≡ false
        → IsClosest (parent name) a
        → IsClosest name a

  climb-IsClosest :
      (fuel : ℕ) (name a : Text)
      → ((n : Text) → 0 < length n → length (parent n) < length n)
      → length name ≤ fuel
      → IsClosest name a
      → climb parent z registry now fuel name
        ≡ from_record parent z registry now (get text_discrete (wildcard a) z.records)
  unfolding climb
  climb-IsClosest zero name a shorter enough (above _ some_label off found) = absurd (omega arith)
  climb-IsClosest zero name a shorter enough (further _ _ some_label off lost c) =
      absurd (omega arith)
  climb-IsClosest (suc fuel) name a shorter enough (above _ some_label off found) =
      rw (off, found) refl
  climb-IsClosest (suc fuel) name a shorter enough (further _ _ some_label off lost c) =
      rw (off, lost)
        (climb-IsClosest fuel (parent name) a shorter (omega (arith, shorter name some_label)) c)

  -- The name is left to leases, other names and wildcards: it is none of the server's own, has no
  -- record of its own, and is not the domain.
  pub record IsOrdinary (name : Text) : Type 0 where
    pub not_ns : text_eq name (bytes "ns." ++ z.domain) ≡ false
    pub not_gateway : text_eq name (bytes "gateway." ++ z.domain) ≡ false
    pub no_record : get text_discrete name z.records ≡ none
    pub not_apex : text_eq name z.domain ≡ false

  -- Where the parent of a name is shorter, an ordinary name under the domain that has no live lease
  -- and does not exist is answered by the wildcard record at the closest name above it that exists,
  -- or by none: broader wildcards are blocked.
  pub wildcard_answers :
      (name a : Text)
      → ((n : Text) → 0 < length n → length (parent n) < length n)
      → IsOrdinary name
      → live now (registry.lookup_name name) ≡ none
      → has_name parent z registry now name ≡ false
      → IsClosest name a
      → lookup_local_address parent z registry now name
        ≡ from_record parent z registry now (get text_discrete (wildcard a) z.records)
  unfolding lookup_local_address
  wildcard_answers name a shorter ordinary unleased unknown c =
      rw
        (
          ordinary.not_ns, ordinary.not_gateway, ordinary.no_record, ordinary.not_apex, unleased,
          unknown,
        )
        (climb-IsClosest (length name) name a shorter (omega arith) c)

-- The lease manager as the registry of a query at the time `now`.
abbrev pub registry_of : Unicode → ℕ → Manager → Registry
registry_of u now m = record {
  lookup_name = λ name. (lookup_name u now m name).1;
  has_name = λ name. (Queries.has_name u now m name).1;
  lookup_ip = λ ip. (lookup_ip now m ip).1;
}

live-some : (now : ℕ) (l : Lease) → now < l.expires_at → live now (some l) ≡ some l
live-some now l h = ground arith

-- With a valid lease manager as its registry, the server resolves a name whose canonical form is
-- the hostname of a live lease to the address of that lease, unless the name is one of the server's
-- own, has a record of its own or is the domain.
pub registered_name_resolves :
    (parent : Text → Text) (z : Zone) (u : Unicode) (now : ℕ) (m : Manager) (name : Text)
    (l : Lease)
    → IsValid m
    → lease_of m.state l.client_id ≡ some l
    → now < l.expires_at
    → l.hostname ≡ normalize_hostname u name m.cfg.domain
    → l.hostname ≢ []
    → IsOrdinary parent z (registry_of u now m) now name
    → lookup_local_address parent z (registry_of u now m) now name
      ≡ record { address = l.ip; ttl = lease_ttl z.ttl now l; exists_name = true }
unfolding lookup_local_address
registered_name_resolves parent z u now m name l v leased fresh spelled named ordinary =
    let found : (lookup_name u now m name).1 ≡ some l =
      (lookup_name_iff u now m name l v).1 (leased, fresh, spelled, named) in
    rw
      (
        ordinary.not_ns,
        ordinary.not_gateway,
        ordinary.no_record,
        ordinary.not_apex,
        found,
        live-some now l fresh,
      )
      refl

-- With a valid lease manager as its registry, the server gives no address for an ordinary name that
-- has no live lease of its own but below which a live lease is registered, whatever wildcards there
-- are: the name exists. The name is proper and is not the manager's domain.
pub lease_below_blocks_wildcards :
    (parent : Text → Text) (z : Zone) (u : Unicode) (now : ℕ) (m : Manager) (name front : Text)
    (l : Lease)
    → IsValid m
    → lease_of m.state l.client_id ≡ some l
    → now < l.expires_at
    → l.hostname ≡ front ++ (dot ∷ normalize_hostname u name m.cfg.domain)
    → normalize_hostname u name m.cfg.domain ≢ []
    → text_eq (to_lower u (trim_suffix name (dot ∷ []))) m.cfg.domain ≡ false
    → (lookup_name u now m name).1 ≡ none
    → IsOrdinary parent z (registry_of u now m) now name
    → lookup_local_address parent z (registry_of u now m) now name ≡ bare
unfolding lookup_local_address has_name
lease_below_blocks_wildcards parent z u now m name front l v leased fresh below named inner unleased
      ordinary =
    let known : (Queries.has_name u now m name).1 ≡ true =
      has_name_below u now m name front l v leased fresh below named inner in
    let exists_name : has_name parent z (registry_of u now m) now name ≡ true = ground arith in
    rw
      (
        ordinary.not_ns, ordinary.not_gateway, ordinary.no_record, ordinary.not_apex, unleased,
        exists_name,
      )
      refl

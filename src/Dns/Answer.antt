-- ===== src/Dns/Answer.antt =====
-- internal/dnsserver/server.go: answerLocal, answerOverride and the records that they make.
use infrastructure_in_a_box.Prelude.{
  ℕ, Bool, true, false, ◌&&◌, ◌||◌, not, List, [], ◌∷◌, ◌++◌, Option, none, some, if◌then◌else◌,
  ◌==◌, length,
}
use infrastructure_in_a_box.Prelude.Text.{Text, bytes, text_eq}
use infrastructure_in_a_box.Lease.Address.{Addr, addr_eq, is_valid}
use infrastructure_in_a_box.Lease.State.{Lease}
use infrastructure_in_a_box.Dns.Zone.{Zone, Registry, Found, lookup_local_address, lease_ttl, live}

-- The resource records, with their owner and their TTL. An SOA record's other fields are fixed.
pub data Rr : Type 0 where
  a_record : Text → Addr → ℕ → Rr
  soa_record : Text → ℕ → Rr
  ns_record : Text → Text → ℕ → Rr
  ptr_record : Text → Text → ℕ → Rr

-- The part of a dns.Msg that the answers fill.
pub record Response : Type 0 where
  pub authoritative : Bool
  pub name_error : Bool
  pub answer : List Rr
  pub authority : List Rr
  pub extra : List Rr

abbrev pub type_a : ℕ
type_a = 1

abbrev pub type_ns : ℕ
type_ns = 2

abbrev pub type_soa : ℕ
type_soa = 6

abbrev pub type_ptr : ℕ
type_ptr = 12

abbrev pub type_any : ℕ
type_any = 255

-- answerOverride, on an empty response.
unfoldable pub answer_override : Zone → Text → ℕ → Text → Addr → Response
answer_override z name kind zone address =
    let asked = kind == type_a || kind == type_any in
    record {
      authoritative = true;
      name_error = false;
      answer = if asked then a_record name address z.ttl ∷ [] else [];
      authority = if asked then [] else soa_record zone 0 ∷ [];
      extra = [];
    }

-- Records with whether the name exists.
pub record Part : Type 0 where
  pub exists_name : Bool
  pub answers : List Rr

abbrev pub address_part : Text → ℕ → Found → Part
address_part name kind found = record {
  exists_name = found.exists_name;
  answers =
      if is_valid found.address && (kind == type_a || kind == type_any)
      then a_record name found.address found.ttl ∷ []
      else [];
}

-- A pointer, if the query asks for one.
abbrev pub pointer : Text → ℕ → Text → ℕ → Part
pointer name kind target ttl = record {
  exists_name = true;
  answers = if kind == type_ptr || kind == type_any then ptr_record name target ttl ∷ [] else [];
}

abbrev pub lease_part : Zone → ℕ → Text → ℕ → Bool → Option Lease → Part
lease_part z now name kind at_apex none = record { exists_name = at_apex; answers = [] }
lease_part z now name kind at_apex (some l) =
    if length l.hostname == 0
    then record { exists_name = at_apex; answers = [] }
    else pointer name kind l.hostname (lease_ttl z.ttl now l)

-- The answer at the apex of a zone to queries for its SOA and NS records.
abbrev pub apex_answers : Zone → Text → ℕ → List Rr
apex_answers z name kind =
    if kind == type_soa
    then soa_record name z.ttl ∷ []
    else if kind == type_ns
    then ns_record name (bytes "ns." ++ z.domain) z.ttl ∷ []
    else []

abbrev pub apex_extra : Zone → ℕ → List Rr
apex_extra z kind =
    if kind == type_ns then a_record (bytes "ns." ++ z.domain) z.server_ip z.ttl ∷ [] else []

module _ (parent : Text → Text) (z : Zone) (registry : Registry) (now : ℕ) where
  -- The addresses of the local zone, or the pointer of a reverse zone.
  unfoldable pub zone_part : Text → ℕ → Text → Addr → Part
  unfolding lookup_local_address
  zone_part name kind zone ip =
      let at_apex = text_eq name zone in
      if text_eq zone z.domain
      then address_part name kind (lookup_local_address parent z registry now name)
      else if is_valid ip
      then (if addr_eq ip z.server_ip
          then pointer name kind (bytes "ns." ++ z.domain) z.ttl
          else lease_part z now name kind at_apex (live now (registry.lookup_ip ip)))
      else record { exists_name = at_apex; answers = [] }

  -- answerLocal, on an empty response.
  unfoldable pub answer_local : Text → ℕ → Text → Addr → Response
  unfolding zone_part
  answer_local name kind zone ip =
      let at_apex = text_eq name zone in
      let part = zone_part name kind zone ip in
      let answers = (if at_apex then apex_answers z name kind else []) ++ part.answers in
      record {
        authoritative = true;
        name_error = not part.exists_name;
        answer = answers;
        authority = if length answers == 0 then soa_record zone 0 ∷ [] else [];
        extra = if at_apex then apex_extra z kind else [];
      }

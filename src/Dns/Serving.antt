-- ===== src/Dns/Serving.antt =====
-- internal/dnsserver/server.go: reverseAuthority, validDomain and the choice of an answer in serveDNS.
use infrastructure_in_a_box.Prelude.{
  ℕ, zero, suc, ◌+◌, ◌-◌, ◌*◌, ◌^◌, Bool, false, ◌&&◌, ◌||◌, not, List, [], ◌∷◌, ◌++◌, Option, none,
  some, if◌then◌else◌, ltb, leb, ◌==◌, length, all,
}
use mathlib.Core.List.{reverse}
use infrastructure_in_a_box.Prelude.Text.{
  Text, bytes, dot, text_eq, split, join, trim_suffix, has_suffix,
}
use infrastructure_in_a_box.Prelude.Numbers.{parse_uint, itoa}
use infrastructure_in_a_box.Names.Labels.{valid_label}
use infrastructure_in_a_box.Lease.Address.{Addr, invalid, v4}
use infrastructure_in_a_box.Dns.Zone.{Zone, Registry}
use infrastructure_in_a_box.Dns.Answer.{Response, answer_local, answer_override}
use infrastructure_in_a_box.Dns.External.{lookup_external_address, root}

-- validDomain.
unfoldable pub valid_domain : Text → Bool
valid_domain domain =
    if ltb 243 (length domain) || text_eq domain root
    then false
    else all valid_label (split dot (trim_suffix domain (dot ∷ [])))

abbrev pub arpa : Text
arpa = bytes ".in-addr.arpa."

-- A reverse zone, empty for none, and the address of a complete name.
pub record Authority : Type 0 where
  pub zone : Text
  pub address : Addr

-- A label that is a byte in its only decimal form.
abbrev pub octet : Text → Option ℕ
octet label = elim (parse_uint 8 label) [
  | none ↦ none
  | some n ↦ if text_eq (itoa n) label then some n else none
]

-- The configured subnet: its bits, and its test.
module _ (bits : ℕ) (contains : Addr → Bool) where
  abbrev pub next_zone : Text → ℕ → ℕ → List Text → Text
  next_zone zone taken value labels =
      if length zone == 0 && leb bits (taken * 8) && contains (v4 value)
      then join dot labels ++ arpa
      else zone

  -- The loop over at most four labels, from the last: `left` counts those to come.
  unfoldable pub octets : ℕ → ℕ → Text → List Text → List Text → Authority
  octets zero value zone seen labels = record { zone = zone; address = invalid }
  octets (suc left) value zone seen [] = record { zone = zone; address = invalid }
  octets (suc left) value zone seen (label ∷ labels) = elim (octet label) [
    | none ↦ record { zone = zone; address = invalid }
    | some n ↦
        let total = value + n * 256 ^ left in
        let here = next_zone zone (4 - left) total (label ∷ seen) in
        let rest = octets left total here (label ∷ seen) labels in
        if left == 0 && length labels == 0 then record { zone = here; address = v4 total } else rest
  ]

  -- reverseAuthority.
  unfoldable pub reverse_authority : Text → Authority
  unfolding octets
  reverse_authority name =
      if not (has_suffix name arpa)
      then record { zone = []; address = invalid }
      else octets 4 0 [] [] (reverse (split dot (trim_suffix name arpa)))

pub record Question : Type 0 where
  pub name : Text
  pub kind : ℕ
  pub class : ℕ

-- What serveDNS reads of a message.
pub record Query : Type 0 where
  pub is_response : Bool
  pub edns_version : Option ℕ
  pub opcode : ℕ
  pub questions : List Question
  pub is_signed : Bool
  pub recursion_desired : Bool

pub data Served : Type 0 where
  dropped bad_version not_implemented format_error refused forwarded : Served
  answered : Response → Served

-- The functions of the DNS package that the choice rests on.
pub record NameRules : Type 0 where
  pub parent : Text → Text
  pub next_label : Text → Option Text
  pub canonical_name : Text → Text
  pub is_domain_name : Text → Bool
  pub is_sub_domain : Text → Text → Bool

abbrev pub has_bad_version : Option ℕ → Bool
has_bad_version none = false
has_bad_version (some v) = not (v == 0)

module _ (names : NameRules) (bits : ℕ) (contains : Addr → Bool) (z : Zone) (has_upstream : Bool)
    (registry : Registry) (now : ℕ) where
  abbrev pub overridden : Query → Text → ℕ → Option (Addr × Text) → Served
  overridden q name kind (some (address, zone)) =
      answered (answer_override z name kind zone address)
  overridden q name kind none = if has_upstream && q.recursion_desired then forwarded else refused

  -- The `default` case: a plain question.
  unfoldable pub serve_question : Query → Question → Served
  unfolding reverse_authority answer_local lookup_external_address
  serve_question q question =
      let name = names.canonical_name question.name in
      let reversed = reverse_authority bits contains name in
      if not (names.is_domain_name name)
      then format_error
      else if names.is_sub_domain z.domain name
      then answered (answer_local names.parent z registry now name question.kind z.domain invalid)
      else if not (length reversed.zone == 0)
      then answered (
          answer_local names.parent z registry now name question.kind reversed.zone
            reversed.address)
      else overridden q name question.kind (lookup_external_address names.next_label z name)

  -- The switch.
  abbrev pub serve_questions : Query → List Question → Served
  serve_questions q (question ∷ []) =
      if not (question.class == 1) || q.is_signed
      then refused
      else if question.kind == 252 || question.kind == 251
      then refused
      else serve_question q question
  serve_questions q _ = format_error

  -- serveDNS.
  unfoldable pub serve_dns : Query → Served
  unfolding serve_question
  serve_dns q =
      if q.is_response
      then dropped
      else if has_bad_version q.edns_version
      then bad_version
      else if not (q.opcode == 0)
      then not_implemented
      else serve_questions q q.questions

-- ===== src/Ldap/Search.antt =====
-- internal/ldapserver/search.go.
use infrastructure_in_a_box.Prelude.{
  ℕ, ◌+◌, Bool, true, false, ◌&&◌, ◌||◌, not, List, [], ◌∷◌, Option, none, some, if◌then◌else◌, ltb,
  leb, ◌==◌, any,
}
use infrastructure_in_a_box.Prelude.Results.{Result, ok, err, ◌>>=◌, ◌>>◌, fail_if}
use infrastructure_in_a_box.Prelude.Text.{Text}
use infrastructure_in_a_box.Ldap.Packet.{
  Code, Packet, Packets, nil, cons, constructed, primitive, kind_of, children, text_of, value_of,
  is_primitive, is_octet_string, is_universal_packet, natural, is_set, tag_boolean, tag_enumerated,
  tag_integer, tag_sequence,
}
use infrastructure_in_a_box.Ldap.Directory.{Names, Entry}
use infrastructure_in_a_box.Ldap.Filter.{Match, Filter, is_true, compile_filter}
use infrastructure_in_a_box.Ldap.Evaluation.{evaluate}

-- The arguments of a search, checked.
pub record Request (Dn : Type 0) : Type 0 where
  pub base : Dn
  pub scope : ℕ
  pub size : ℕ
  pub is_root : Bool
  pub filter : Filter
  pub attributes : List Text
  pub types_only : Bool

-- The eight arguments as they come.
pub record Arguments : Type 0 where
  pub base : Packet
  pub scope : Packet
  pub deref : Packet
  pub size : Packet
  pub seconds : Packet
  pub types_only : Packet
  pub filter : Packet
  pub attributes : Packet

abbrev arguments_of : Packets → Option Arguments
arguments_of (cons a (cons b (cons c (cons d (cons e (cons f (cons g (cons h nil)))))))) =
    some (record {
      base = a;
      scope = b;
      deref = c;
      size = d;
      seconds = e;
      types_only = f;
      filter = g;
      attributes = h;
    })
arguments_of _ = none

abbrev pub required {ℓ} : {E A : Type ℓ} → E → Option A → Result E A
required e none = err e
required e (some a) = ok a

abbrev at_most : ℕ → Option ℕ → Option ℕ
at_most limit none = none
at_most limit (some n) = if leb n limit then some n else none

-- The loop over the attributes that are asked for.
abbrev with_name : Text → Option (List Text) → Option (List Text)
with_name name none = none
with_name name (some names) = some (name ∷ names)

unfoldable pub attribute_names : Packets → Option (List Text)
attribute_names nil = some []
attribute_names (cons p ps) =
    let rest = attribute_names ps in if is_octet_string p then with_name (text_of p) rest else none

-- What the checks of the arguments have found, before the filter is read.
pub record Target (Dn : Type 0) : Type 0 where
  pub base : Dn
  pub scope : ℕ
  pub size : ℕ
  pub arguments : Arguments

-- The checks of the arguments in their order, each with its code.
unfoldable pub check_arguments : {Dn : Type 0} → Names Dn → Packet → Result Code (Target Dn)
check_arguments names op = do
  fail_if (is_primitive (kind_of op)) Code.protocol_error
  args ← required Code.protocol_error (arguments_of (children op))
  fail_if (not (is_octet_string args.base)) Code.protocol_error
  scope ← required Code.protocol_error (at_most 2 (natural tag_enumerated args.scope))
  deref ← required Code.protocol_error (at_most 3 (natural tag_enumerated args.deref))
  size ← required Code.protocol_error (natural tag_integer args.size)
  seconds ← required Code.protocol_error (natural tag_integer args.seconds)
  fail_if
      (not (is_universal_packet primitive tag_boolean args.types_only)
        || not (is_universal_packet constructed tag_sequence args.attributes))
      Code.protocol_error
  base ← required Code.invalid_dn_syntax (names.parse_dn (text_of args.base))
  ok (record { base = base; scope = scope; size = size; arguments = args })

-- The search is for the root DSE.
abbrev pub is_for_root : {Dn : Type 0} → Names Dn → Target Dn → Bool
is_for_root names target = names.depth target.base == 0 && target.scope == 0

-- The request, if the filter and the attributes could be read.
abbrev pub request_of :
    {Dn : Type 0}
    → Names Dn
    → Target Dn
    → Option Filter
    → Option (List Text)
    → Result Code (Request Dn)
request_of names target none attributes = err Code.inappropriate_matching
request_of names target (some filter) none = err Code.protocol_error
request_of names target (some filter) (some attributes) = ok (record {
  base = target.base;
  scope = target.scope;
  size = target.size;
  is_root = is_for_root names target;
  filter = filter;
  attributes = attributes;
  types_only = is_set (value_of target.arguments.types_only);
})

unfoldable pub permit : {Dn : Type 0} → Names Dn → Bool → Target Dn → Result Code (Request Dn)
unfolding compile_filter attribute_names
permit names can_search target =
    if not (is_for_root names target) && not can_search
    then err Code.insufficient_access_rights
    else request_of names target (compile_filter names target.arguments.filter)
        (attribute_names (children target.arguments.attributes))

-- search, up to the filter's evaluation.
unfoldable pub check_search : {Dn : Type 0} → Names Dn → Bool → Packet → Result Code (Request Dn)
unfolding check_arguments permit
check_search names can_search op = check_arguments names op >>= permit names can_search

-- The directory: its entries, and the root DSE.
pub record Directory (Dn : Type 0) : Type 0 where
  pub entries : List (Entry Dn)
  pub root : Entry Dn

abbrev pub searched : {Dn : Type 0} → Directory Dn → Request Dn → List (Entry Dn)
searched directory request = if request.is_root then directory.root ∷ [] else directory.entries

abbrev pub max_search_results : ℕ
max_search_results = 1000

abbrev pub limit_of : ℕ → ℕ
limit_of size = if ltb 0 size && ltb size max_search_results then size else max_search_results

-- The test on an entry's place, which is written out for the three scopes.
unfoldable pub in_scope : {Dn : Type 0} → Names Dn → Dn → ℕ → Dn → Bool
in_scope names base scope dn =
    if not (scope == 0) && names.is_ancestor base dn
    then scope == 2 || names.depth dn == names.depth base + 1
    else if scope == 1
    then false
    else names.same_dn dn base

abbrev is_matched : Match → Bool
is_matched is_true = true
is_matched _ = false

unfoldable pub is_hit : {Dn : Type 0} → Names Dn → Request Dn → Entry Dn → Bool
unfolding in_scope evaluate
is_hit names request e =
    in_scope names request.base request.scope e.parsed_dn
    && is_matched (evaluate names e.attrs request.filter)

-- How a round of the loop finds the clock, the context and the connection.
pub data Tick : Type 0 where
  on_time late cancelled unwritable : Tick

-- How a search ends: with a code, or with the connection.
pub data End : Type 0 where
  finished : Code → End
  closed : End

pub record Outcome (Dn : Type 0) : Type 0 where
  pub sent : List (Entry Dn)
  pub ending : End

abbrev pub ends : {Dn : Type 0} → End → Outcome Dn
ends ending = record { sent = []; ending = ending }

abbrev pub sends : {Dn : Type 0} → Entry Dn → Outcome Dn → Outcome Dn
sends e outcome = record { sent = e ∷ outcome.sent; ending = outcome.ending }

abbrev is_late : Tick → Bool
is_late late = true
is_late _ = false

-- The loop over the entries, from the round `i` on, with `count` entries sent.
unfoldable pub search_entries :
    {Dn : Type 0} → Names Dn → Request Dn → (ℕ → Tick) → ℕ → ℕ → List (Entry Dn) → Outcome Dn
unfolding is_hit
search_entries names request clock i count [] =
    if is_late (clock i)
    then ends (finished Code.time_limit_exceeded)
    else ends (finished Code.success)
search_entries names request clock i count (e ∷ entries) =
    let skip = search_entries names request clock (i + 1) count entries in
    let rest = search_entries names request clock (i + 1) (count + 1) entries in
    elim (clock i) [
      | cancelled ↦ ends closed
      | late ↦ ends (finished Code.time_limit_exceeded)
      | on_time ↦
          if not (is_hit names request e)
          then skip
          else if count == limit_of request.size
          then ends (finished Code.size_limit_exceeded)
          else sends e rest
      | unwritable ↦
          if not (is_hit names request e)
          then skip
          else if count == limit_of request.size
          then ends (finished Code.size_limit_exceeded)
          else ends closed
    ]

abbrev finds_base : {Dn : Type 0} → Names Dn → Dn → List (Entry Dn) → Bool
finds_base names base entries = any (λ e. names.same_dn e.parsed_dn base) entries

unfoldable pub run_search :
    {Dn : Type 0} → Names Dn → Directory Dn → (ℕ → Tick) → Request Dn → Outcome Dn
unfolding search_entries
run_search names directory clock request =
    if not (finds_base names request.base (searched directory request))
    then ends (finished Code.no_such_object)
    else search_entries names request clock 0 0 (searched directory request)

-- search.
unfoldable pub search :
    {Dn : Type 0} → Names Dn → Directory Dn → (ℕ → Tick) → Bool → Packet → Outcome Dn
unfolding check_search run_search
search names directory clock can_search op = elim (check_search names can_search op) [
  | err code ↦ ends (finished code)
  | ok request ↦ run_search names directory clock request
]

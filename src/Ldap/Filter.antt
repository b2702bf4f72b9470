-- ===== src/Ldap/Filter.antt =====
-- internal/ldapserver/filter.go: filters are checked as a whole and then evaluated in three values.
use infrastructure_in_a_box.Prelude.{
  ℕ, ◌^◌, Bool, true, false, ◌&&◌, ◌||◌, not, List, [], ◌∷◌, Option, none, some, if◌then◌else◌, ltb,
  leb, ◌==◌, length,
}
use infrastructure_in_a_box.Prelude.Text.{Text, bytes, text_discrete, to_lower}
use infrastructure_in_a_box.Prelude.Numbers.{parse_uint}
use infrastructure_in_a_box.Acme.Orders.{is_some}
use infrastructure_in_a_box.Ldap.Packet.{
  Packet, Packets, packet, nil, cons, children, text_of, is_context, is_primitive, is_empty,
  is_octet_string, is_universal_packet, constructed, tag_sequence,
}
use infrastructure_in_a_box.Ldap.Directory.{Names, equal_fold, is_one_of}

pub data Match : Type 0 where
  is_false is_undefined is_true : Match

-- The part of a substring filter: its tag, which says where it stands, and its text.
pub record Part : Type 0 where
  pub place : ℕ
  pub fragment : Text

-- What a closure of compileFilter holds on to; `equality` keeps whether its assertion is valid.
mutual
  pub data Filter : Type 0 where
    present : Text → Filter
    conjunction disjunction : Filters → Filter
    negation : Filter → Filter
    equality : Bool → Text → Text → Filter
    substrings : Text → List Part → Filter

  pub data Filters : Type 0 where
    end : Filters
    also : Filter → Filters → Filters

abbrev pub known_attributes : List Text
known_attributes =
    bytes "objectclass"
    ∷ bytes "uid"
    ∷ bytes "cn"
    ∷ bytes "sn"
    ∷ bytes "ou"
    ∷ bytes "dc"
    ∷ bytes "o"
    ∷ bytes "mail"
    ∷ bytes "uidnumber"
    ∷ bytes "gidnumber"
    ∷ bytes "homedirectory"
    ∷ bytes "loginshell"
    ∷ bytes "member"
    ∷ bytes "uniquemember"
    ∷ bytes "memberuid"
    ∷ bytes "memberof"
    ∷ bytes "namingcontexts"
    ∷ bytes "supportedldapversion"
    ∷ bytes "vendorname"
    ∷ []

abbrev dn_attributes : List Text
dn_attributes =
    bytes "member" ∷ bytes "uniquemember" ∷ bytes "memberof" ∷ bytes "namingcontexts" ∷ []

abbrev integer_attributes : List Text
integer_attributes = bytes "uidnumber" ∷ bytes "gidnumber" ∷ []

-- knownAttribute.
unfoldable pub known_attribute : Text → Bool
unfolding text_discrete
known_attribute name = is_one_of known_attributes name

unfoldable pub is_dn_attribute : Text → Bool
unfolding text_discrete
is_dn_attribute name = is_one_of dn_attributes name

unfoldable pub is_integer_attribute : Text → Bool
unfolding text_discrete
is_integer_attribute name = is_one_of integer_attributes name

-- An integer as its sign and its magnitude; zero has no sign.
abbrev signed_value : Bool → Option ℕ → Option (Bool × ℕ)
signed_value negative none = none
signed_value false (some n) = if ltb n (2 ^ 63) then some (false, n) else none
signed_value true (some n) = if leb n (2 ^ 63) then some (not (n == 0), n) else none

-- strconv.ParseInt(s, 10, 64).
unfoldable pub parse_int : Text → Option (Bool × ℕ)
unfolding parse_uint
parse_int [] = none
parse_int (c ∷ s) =
    if c == b'-'
    then signed_value true (parse_uint 64 s)
    else if c == b'+'
    then signed_value false (parse_uint 64 s)
    else signed_value false (parse_uint 64 (c ∷ s))

abbrev same_sign : Bool → Bool → Bool
same_sign true b = b
same_sign false b = not b

abbrev same_int : Option (Bool × ℕ) → Option (Bool × ℕ) → Bool
same_int (some (s, m)) (some (t, n)) = same_sign s t && m == n
same_int _ _ = false

abbrev both_same : {Dn : Type 0} → Names Dn → Option Dn → Option Dn → Bool
both_same names (some x) (some y) = names.same_dn x y
both_same names _ _ = false

-- equalAttribute.
unfoldable pub equal_attribute : {Dn : Type 0} → Names Dn → Text → Text → Text → Bool
unfolding is_dn_attribute is_integer_attribute parse_int equal_fold
equal_attribute names name a b =
    if is_dn_attribute name
    then both_same names (names.parse_dn a) (names.parse_dn b)
    else if is_integer_attribute name
    then same_int (parse_int a) (parse_int b)
    else equal_fold names a b

-- Whether the assertion of an equality can be true of any entry.
unfoldable pub is_valid_assertion : {Dn : Type 0} → Names Dn → Text → Text → Bool
unfolding is_dn_attribute is_integer_attribute parse_int known_attribute
is_valid_assertion names name value =
    if is_dn_attribute name
    then is_some (names.parse_dn value)
    else if is_integer_attribute name
    then is_some (parse_int value)
    else known_attribute name

-- The parts of a substring filter: an initial one stands first, a final one last.
abbrev with_part : Part → Option (List Part) → Option (List Part)
with_part part none = none
with_part part (some parts) = some (part ∷ parts)

unfoldable pub parts_of : Bool → Packets → Option (List Part)
parts_of first nil = some []
parts_of first (cons (packet class kind tag value text inside) ps) =
    let rest = parts_of false ps in
    if not (is_context class)
      || not (is_primitive kind)
      || ltb 2 tag
      || (tag == 0 && not first)
      || (tag == 2 && not (is_empty ps))
    then none
    else with_part (record { place = tag; fragment = text }) rest

-- compileSubstrings, behind the tests on its two children.
abbrev pub substrings_of : Text → Option (List Part) → Option Filter
substrings_of name none = none
substrings_of name (some parts) = if length name == 0 then none else some (substrings name parts)

unfoldable pub compile_substrings : {Dn : Type 0} → Names Dn → Packets → Option Filter
unfolding parts_of to_lower
compile_substrings names (cons a (cons b nil)) =
    if not (is_octet_string a)
      || not (is_universal_packet constructed tag_sequence b)
      || is_empty (children b)
    then none
    else substrings_of (to_lower names.unicode (text_of a)) (parts_of true (children b))
compile_substrings names _ = none

unfoldable pub compile_equality : {Dn : Type 0} → Names Dn → Packets → Option Filter
unfolding is_valid_assertion to_lower
compile_equality names (cons a (cons b nil)) =
    if not (is_octet_string a) || not (is_octet_string b)
    then none
    else let name = to_lower names.unicode (text_of a) in
      if length name == 0
      then none
      else some (equality (is_valid_assertion names name (text_of b)) name (text_of b))
compile_equality names _ = none

abbrev pub compiled_all : (Filters → Filter) → Option Filters → Option Filter
compiled_all make none = none
compiled_all make (some end) = none
compiled_all make (some (also f fs)) = some (make (also f fs))

abbrev pub compiled_not : Option Filters → Option Filter
compiled_not (some (also f end)) = some (negation f)
compiled_not _ = none

abbrev pub with_filter : Option Filter → Option Filters → Option Filters
with_filter (some f) (some fs) = some (also f fs)
with_filter _ _ = none

-- compileFilter, by the tags of the protocol.
unfoldable mutual
  unfolding compile_substrings compile_equality to_lower

  pub compile_filter : {Dn : Type 0} → Names Dn → Packet → Option Filter
  compile_filter names (packet class kind tag value text inside) =
      let all = compile_filters names inside in
      if not (is_context class)
      then none
      else if tag == 7
      then (if not (is_primitive kind) || length text == 0
          then none
          else some (present (to_lower names.unicode text)))
      else if is_primitive kind
      then none
      else if tag == 0
      then compiled_all conjunction all
      else if tag == 1
      then compiled_all disjunction all
      else if tag == 2
      then compiled_not all
      else if tag == 3
      then compile_equality names inside
      else if tag == 4
      then compile_substrings names inside
      else none

  pub compile_filters : {Dn : Type 0} → Names Dn → Packets → Option Filters
  compile_filters names nil = some end
  compile_filters names (cons p ps) =
      with_filter (compile_filter names p) (compile_filters names ps)

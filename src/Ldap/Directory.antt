-- ===== src/Ldap/Directory.antt =====
-- internal/ldapserver/directory.go: entries, the lookup of their attributes, and the selection of
-- what a search returns. Distinguished names are the LDAP library's.
use infrastructure_in_a_box.Prelude.{
  ℕ, Bool, false, ◌&&◌, ◌||◌, not, List, [], ◌∷◌, Option, if◌then◌else◌, map, any,
}
use infrastructure_in_a_box.Prelude.Text.{
  Text, Unicode, bytes, text_discrete, text_eq, is_ascii, lower_byte, to_lower,
}
use infrastructure_in_a_box.Prelude.Table.{Table}

-- What the server takes from its libraries: strings.EqualFold beyond ASCII, and ldap.DN with
-- ParseDN, EqualFold, AncestorOfFold and the number of its RDNs.
pub record Names (Dn : Type 0) : Type 0 where
  pub unicode : Unicode
  pub fold : Text → Text → Bool
  pub parse_dn : Text → Option Dn
  pub same_dn : Dn → Dn → Bool
  pub is_ancestor : Dn → Dn → Bool
  pub depth : Dn → ℕ

pub record Entry (Dn : Type 0) : Type 0 where
  pub dn : Text
  pub parsed_dn : Dn
  pub attrs : Table Text (List Text)

abbrev pub ascii_fold : Text → Text → Bool
ascii_fold a b = text_eq (map lower_byte a) (map lower_byte b)

-- strings.EqualFold.
unfoldable pub equal_fold : {Dn : Type 0} → Names Dn → Text → Text → Bool
unfolding text_discrete
equal_fold names a b = if is_ascii a && is_ascii b then ascii_fold a b else names.fold a b

-- entry.values.
unfoldable pub values : {Dn : Type 0} → Names Dn → Table Text (List Text) → Text → List Text
unfolding equal_fold
values names [] name = []
values names ((attr, found) ∷ attrs) name =
    let rest = values names attrs name in if equal_fold names attr name then found else rest

abbrev pub is_one_of : List Text → Text → Bool
is_one_of names name = any (λ n. text_eq name n) names

abbrev operational_attributes : List Text
operational_attributes =
    bytes "namingcontexts" ∷ bytes "supportedldapversion" ∷ bytes "vendorname" ∷ []

unfoldable pub is_operational : {Dn : Type 0} → Names Dn → Text → Bool
unfolding to_lower text_discrete
is_operational names name = is_one_of operational_attributes (to_lower names.unicode name)

unfoldable pub is_requested : {Dn : Type 0} → Names Dn → Text → Bool → List Text → Bool
unfolding equal_fold text_discrete
is_requested names name operational [] = false
is_requested names name operational (attr ∷ requested) =
    equal_fold names name attr
    || (text_eq attr (bytes "*") && not operational)
    || (text_eq attr (bytes "+") && operational)
    || is_requested names name operational requested

-- selectAttribute.
unfoldable pub select_attribute : {Dn : Type 0} → Names Dn → Text → List Text → Bool
unfolding is_operational is_requested
select_attribute names name [] = not (is_operational names name)
select_attribute names name (attr ∷ requested) =
    is_requested names name (is_operational names name) (attr ∷ requested)

-- ===== src/Ldap/Evaluation.antt =====
-- internal/ldapserver/filter.go: the evaluation of filters in three values.
use infrastructure_in_a_box.Prelude.{
  Bool, true, false, ◌&&◌, ◌||◌, not, List, [], ◌∷◌, Option, none, some, if◌then◌else◌, ◌==◌,
  length, drop,
}
use infrastructure_in_a_box.Prelude.Text.{Text, to_lower, has_prefix, has_suffix}
use infrastructure_in_a_box.Prelude.Table.{Table}
use infrastructure_in_a_box.Ldap.Directory.{Names, values}
use infrastructure_in_a_box.Ldap.Filter.{
  Match, Part, Filter, Filters, is_false, is_undefined, is_true, present, conjunction, disjunction,
  negation, equality, substrings, end, also, known_attribute, is_dn_attribute, is_integer_attribute,
  equal_attribute,
}

-- truth.
abbrev pub truth : Bool → Match
truth true = is_true
truth false = is_false

abbrev pub negated : Match → Match
negated is_true = is_false
negated is_false = is_true
negated is_undefined = is_undefined

-- What follows the first occurrence of a fragment, by strings.Index.
unfoldable pub after_fragment : Text → Text → Option Text
unfolding has_prefix
after_fragment fragment [] = if length fragment == 0 then some [] else none
after_fragment fragment (c ∷ s) =
    let rest = after_fragment fragment s in
    if has_prefix (c ∷ s) fragment then some (drop (length fragment) (c ∷ s)) else rest

-- The loop over the parts of a substring filter, on what is left of a value.
unfoldable pub match_parts : {Dn : Type 0} → Names Dn → List Part → Text → Bool
unfolding after_fragment has_prefix has_suffix to_lower
match_parts names [] rest = true
match_parts names (part ∷ parts) rest =
    let fragment = to_lower names.unicode part.fragment in
    if part.place == 0
    then has_prefix rest fragment && match_parts names parts (drop (length fragment) rest)
    else if part.place == 1
    then (elim (after_fragment fragment rest) [
      | none ↦ false
      | some left ↦ match_parts names parts left
    ])
    else if part.place == 2
    then has_suffix rest fragment && match_parts names parts rest
    else match_parts names parts rest

unfoldable pub any_equal : {Dn : Type 0} → Names Dn → Text → Text → List Text → Bool
unfolding equal_attribute
any_equal names name value [] = false
any_equal names name value (candidate ∷ candidates) =
    equal_attribute names name candidate value || any_equal names name value candidates

unfoldable pub any_matching : {Dn : Type 0} → Names Dn → List Part → List Text → Bool
unfolding match_parts to_lower
any_matching names parts [] = false
any_matching names parts (value ∷ rest) =
    match_parts names parts (to_lower names.unicode value) || any_matching names parts rest

-- The evaluation of a filter on the attributes of an entry.
unfoldable mutual
  unfolding known_attribute is_dn_attribute is_integer_attribute values any_equal any_matching

  pub evaluate : {Dn : Type 0} → Names Dn → Table Text (List Text) → Filter → Match
  evaluate names attrs (present name) =
      if not (known_attribute name)
      then is_undefined
      else truth (not (length (values names attrs name) == 0))
  evaluate names attrs (conjunction fs) = evaluate_and names attrs false fs
  evaluate names attrs (disjunction fs) = evaluate_or names attrs false fs
  evaluate names attrs (negation f) = negated (evaluate names attrs f)
  evaluate names attrs (equality valid name value) =
      if not valid
      then is_undefined
      else truth (any_equal names name value (values names attrs name))
  evaluate names attrs (substrings name parts) =
      if not (known_attribute name) || is_dn_attribute name || is_integer_attribute name
      then is_undefined
      else truth (any_matching names parts (values names attrs name))

  -- The loops, with the flag that an undefined filter raises.
  pub evaluate_and : {Dn : Type 0} → Names Dn → Table Text (List Text) → Bool → Filters → Match
  evaluate_and names attrs undefined end = if undefined then is_undefined else is_true
  evaluate_and names attrs undefined (also f fs) = elim (evaluate names attrs f) [
    | is_false ↦ is_false
    | is_undefined ↦ evaluate_and names attrs true fs
    | is_true ↦ evaluate_and names attrs undefined fs
  ]

  pub evaluate_or : {Dn : Type 0} → Names Dn → Table Text (List Text) → Bool → Filters → Match
  evaluate_or names attrs undefined end = if undefined then is_undefined else is_false
  evaluate_or names attrs undefined (also f fs) = elim (evaluate names attrs f) [
    | is_true ↦ is_true
    | is_undefined ↦ evaluate_or names attrs true fs
    | is_false ↦ evaluate_or names attrs undefined fs
  ]

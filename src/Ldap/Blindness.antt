-- ===== src/Ldap/Blindness.antt =====
-- A filter that compileFilter accepts sees the known attributes of an entry and nothing else.
use infrastructure_in_a_box.Prelude.{
  ◌≡◌, refl, subst, Bool, true, false, ◌||◌, not, List, Option, none, some, if◌then◌else◌, arith,
  length, ◌==◌,
}
use infrastructure_in_a_box.Prelude.Text.{Text, to_lower}
use infrastructure_in_a_box.Prelude.Table.{Table}
use infrastructure_in_a_box.Ldap.Packet.{
  Packet, Packets, packet, nil, cons, children, text_of, is_context, is_primitive, is_empty,
  is_octet_string, is_universal_packet, constructed, tag_sequence,
}
use infrastructure_in_a_box.Ldap.Directory.{Names, values}
use infrastructure_in_a_box.Ldap.Filter.{
  Filter, Filters, Part, present, conjunction, disjunction, negation, equality, substrings, end,
  also, known_attribute, is_dn_attribute, is_integer_attribute, is_valid_assertion, parts_of,
  substrings_of, compile_substrings, compile_equality, compiled_all, compiled_not, with_filter,
  compile_filter, compile_filters,
}
use infrastructure_in_a_box.Ldap.Evaluation.{evaluate, evaluate_and, evaluate_or}

-- An equality counts as valid only for a known attribute.
abbrev mutual
  pub IsChecked : Filter → Type 0
  IsChecked (present name) = Unit
  IsChecked (conjunction fs) = AreChecked fs
  IsChecked (disjunction fs) = AreChecked fs
  IsChecked (negation f) = IsChecked f
  IsChecked (equality valid name value) = valid ≡ true → known_attribute name ≡ true
  IsChecked (substrings name parts) = Unit

  pub AreChecked : Filters → Type 0
  AreChecked end = Unit
  AreChecked (also f fs) = IsChecked f × AreChecked fs

known-dn : (name : Text) → is_dn_attribute name ≡ true → known_attribute name ≡ true
unfolding is_dn_attribute known_attribute
known-dn name e = ground arith

known-integer : (name : Text) → is_integer_attribute name ≡ true → known_attribute name ≡ true
unfolding is_integer_attribute known_attribute
known-integer name e = ground arith

valid-known :
    {Dn : Type 0} (names : Names Dn) (name value : Text)
    → is_valid_assertion names name value ≡ true
    → known_attribute name ≡ true
unfolding is_valid_assertion
valid-known names name value e = ground (arith, known-dn name, known-integer name)

-- `P` holds of what was compiled, if anything was.
abbrev IfSome : {A : Type 0} → (A → Type 0) → Option A → Type 0
IfSome P none = Unit
IfSome P (some a) = P a

if-IfSome :
    {A : Type 0} (P : A → Type 0) (b : Bool) (x y : Option A)
    → IfSome P x
    → IfSome P y
    → IfSome P (if b then x else y)
if-IfSome P true x y h k = h
if-IfSome P false x y h k = k

substrings_of-IsChecked :
    (name : Text) (parts : Option (List Part)) → IfSome IsChecked (substrings_of name parts)
substrings_of-IsChecked name none = tt
substrings_of-IsChecked name (some parts) =
    if-IfSome IsChecked (length name == 0) none (some (substrings name parts)) tt tt

compile_substrings-IsChecked :
    {Dn : Type 0} (names : Names Dn) (ps : Packets) → IfSome IsChecked (compile_substrings names ps)
unfolding compile_substrings
compile_substrings-IsChecked names nil = tt
compile_substrings-IsChecked names (cons a nil) = tt
compile_substrings-IsChecked names (cons a (cons b nil)) =
    if-IfSome IsChecked
      (not (is_octet_string a)
        || not (is_universal_packet constructed tag_sequence b)
        || is_empty (children b))
      none (substrings_of (to_lower names.unicode (text_of a)) (parts_of true (children b))) tt
      (substrings_of-IsChecked (to_lower names.unicode (text_of a)) (parts_of true (children b)))
compile_substrings-IsChecked names (cons a (cons b (cons c ps))) = tt

compile_equality-IsChecked :
    {Dn : Type 0} (names : Names Dn) (ps : Packets) → IfSome IsChecked (compile_equality names ps)
unfolding compile_equality
compile_equality-IsChecked names nil = tt
compile_equality-IsChecked names (cons a nil) = tt
compile_equality-IsChecked {Dn} names (cons a (cons b nil)) =
    if-IfSome IsChecked (not (is_octet_string a) || not (is_octet_string b)) none _ tt (
      if-IfSome IsChecked (length name == 0) none
        (some (equality (is_valid_assertion names name (text_of b)) name (text_of b))) tt
        (valid-known names name (text_of b)))
  where
    name : Text
    name = to_lower names.unicode (text_of a)
compile_equality-IsChecked names (cons a (cons b (cons c ps))) = tt

compiled_all-IsChecked :
    (make : Filters → Filter) (all : Option Filters)
    → ((fs : Filters) → AreChecked fs → IsChecked (make fs))
    → IfSome AreChecked all
    → IfSome IsChecked (compiled_all make all)
compiled_all-IsChecked make none good h = tt
compiled_all-IsChecked make (some end) good h = tt
compiled_all-IsChecked make (some (also f fs)) good h = good (also f fs) h

compiled_not-IsChecked :
    (all : Option Filters) → IfSome AreChecked all → IfSome IsChecked (compiled_not all)
compiled_not-IsChecked none h = tt
compiled_not-IsChecked (some end) h = tt
compiled_not-IsChecked (some (also f end)) h = h.0
compiled_not-IsChecked (some (also f (also g fs))) h = tt

with_filter-AreChecked :
    (f : Option Filter) (fs : Option Filters)
    → IfSome IsChecked f
    → IfSome AreChecked fs
    → IfSome AreChecked (with_filter f fs)
with_filter-AreChecked none fs h k = tt
with_filter-AreChecked (some f) none h k = tt
with_filter-AreChecked (some f) (some fs) h k = (h, k)

mutual
  unfolding compile_filter

  compile_filter-IsChecked :
      {Dn : Type 0} (names : Names Dn) (p : Packet) → IfSome IsChecked (compile_filter names p)
  compile_filter-IsChecked names (packet class kind tag value text inside) =
      if-IfSome IsChecked (not (is_context class)) none _ tt (
        if-IfSome IsChecked (tag == 7) _ _
          (if-IfSome IsChecked (not (is_primitive kind) || length text == 0) none
            (some (present (to_lower names.unicode text))) tt tt)
          (if-IfSome IsChecked (is_primitive kind) none _ tt (
            if-IfSome IsChecked (tag == 0) (compiled_all conjunction (compile_filters names inside))
              _
              (compiled_all-IsChecked conjunction (compile_filters names inside) (λ fs h. h)
                (compile_filters-AreChecked names inside))
              (if-IfSome IsChecked (tag == 1)
                (compiled_all disjunction (compile_filters names inside)) _
                (compiled_all-IsChecked disjunction (compile_filters names inside) (λ fs h. h)
                  (compile_filters-AreChecked names inside))
                (if-IfSome IsChecked (tag == 2) (compiled_not (compile_filters names inside)) _
                  (compiled_not-IsChecked (compile_filters names inside)
                    (compile_filters-AreChecked names inside))
                  (if-IfSome IsChecked (tag == 3) (compile_equality names inside) _
                    (compile_equality-IsChecked names inside)
                    (if-IfSome IsChecked (tag == 4) (compile_substrings names inside) none
                      (compile_substrings-IsChecked names inside) tt)))))))

  compile_filters-AreChecked :
      {Dn : Type 0} (names : Names Dn) (ps : Packets) → IfSome AreChecked (compile_filters names ps)
  compile_filters-AreChecked names nil = tt
  compile_filters-AreChecked names (cons p ps) =
      with_filter-AreChecked (compile_filter names p) (compile_filters names ps)
        (compile_filter-IsChecked names p) (compile_filters-AreChecked names ps)

-- Two entries that agree on the known attributes.
abbrev pub Alike :
    {Dn : Type 0} → Names Dn → Table Text (List Text) → Table Text (List Text) → Type 0
Alike names attrs others =
    (name : Text) → known_attribute name ≡ true → values names attrs name ≡ values names others name

module _ {Dn : Type 0} (names : Names Dn) (attrs others : Table Text (List Text))
    (h : Alike names attrs others) where
  mutual
    unfolding evaluate

    evaluate-Alike : (f : Filter) → IsChecked f → evaluate names attrs f ≡ evaluate names others f
    evaluate-Alike (present name) c = ground (arith, h name)
    evaluate-Alike (conjunction fs) c = and-Alike false fs c
    evaluate-Alike (disjunction fs) c = or-Alike false fs c
    evaluate-Alike (negation f) c = ground (arith, evaluate-Alike f c)
    evaluate-Alike (equality valid name value) c = ground (arith, h name)
    evaluate-Alike (substrings name parts) c = ground (arith, h name)

    and-Alike :
        (undefined : Bool) (fs : Filters)
        → AreChecked fs
        → evaluate_and names attrs undefined fs ≡ evaluate_and names others undefined fs
    and-Alike undefined end c = refl
    and-Alike undefined (also f fs) c =
        ground (arith, evaluate-Alike f c.0, and-Alike undefined fs c.1, and-Alike true fs c.1)

    or-Alike :
        (undefined : Bool) (fs : Filters)
        → AreChecked fs
        → evaluate_or names attrs undefined fs ≡ evaluate_or names others undefined fs
    or-Alike undefined end c = refl
    or-Alike undefined (also f fs) c =
        ground (arith, evaluate-Alike f c.0, or-Alike undefined fs c.1, or-Alike true fs c.1)

-- A filter that compileFilter accepts gives the same answer on two entries with the same known
-- attributes, so that no filter tells anything of another attribute, such as a password.
pub filter_is_blind :
    {Dn : Type 0} (names : Names Dn) (p : Packet) (f : Filter)
    (attrs others : Table Text (List Text))
    → compile_filter names p ≡ some f
    → Alike names attrs others
    → evaluate names attrs f ≡ evaluate names others f
filter_is_blind names p f attrs others e h =
    evaluate-Alike names attrs others h f
      (subst (IfSome IsChecked) e (compile_filter-IsChecked names p))

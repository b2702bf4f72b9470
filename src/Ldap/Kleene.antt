-- ===== src/Ldap/Kleene.antt =====
-- The evaluation of filters against Kleene's logic of three values.
use infrastructure_in_a_box.Prelude.{
  ℕ, ◌≡◌, refl, ◌-◌, min, max, ◌≤◌, Bool, true, false, List, if◌then◌else◌, arith,
}
use infrastructure_in_a_box.Prelude.Text.{Text}
use infrastructure_in_a_box.Prelude.Table.{Table}
use infrastructure_in_a_box.Ldap.Directory.{Names}
use infrastructure_in_a_box.Ldap.Filter.{
  Match, is_false, is_undefined, is_true, Filter, Filters, present, conjunction, disjunction,
  negation, equality, substrings, end, also,
}
use infrastructure_in_a_box.Ldap.Evaluation.{evaluate, evaluate_and, evaluate_or}

-- The degree of truth of an answer: 0, 1 or 2.
abbrev pub grade : Match → ℕ
grade is_false = 0
grade is_undefined = 1
grade is_true = 2

-- The degree of a filter: the least of a conjunction, the greatest of a disjunction, the complement
-- of a negation, and the answer of anything else.
unfoldable mutual
  pub degree : {Dn : Type 0} → Names Dn → Table Text (List Text) → Filter → ℕ
  degree names attrs (conjunction fs) = least names attrs fs
  degree names attrs (disjunction fs) = greatest names attrs fs
  degree names attrs (negation f) = 2 - degree names attrs f
  degree names attrs (present name) = grade (evaluate names attrs (present name))
  degree names attrs (equality valid name value) =
      grade (evaluate names attrs (equality valid name value))
  degree names attrs (substrings name parts) = grade (evaluate names attrs (substrings name parts))

  pub least : {Dn : Type 0} → Names Dn → Table Text (List Text) → Filters → ℕ
  least names attrs end = 2
  least names attrs (also f fs) = min (degree names attrs f) (least names attrs fs)

  pub greatest : {Dn : Type 0} → Names Dn → Table Text (List Text) → Filters → ℕ
  greatest names attrs end = 0
  greatest names attrs (also f fs) = max (degree names attrs f) (greatest names attrs fs)

mutual
  unfolding evaluate degree

  evaluate-degree :
      {Dn : Type 0} (names : Names Dn) (attrs : Table Text (List Text)) (f : Filter)
      → grade (evaluate names attrs f) ≡ degree names attrs f
  evaluate-degree names attrs (present name) = refl
  evaluate-degree names attrs (conjunction fs) =
      ground (arith, and-least names attrs false fs, least-le names attrs fs)
  evaluate-degree names attrs (disjunction fs) = ground (arith, or-greatest names attrs false fs)
  evaluate-degree names attrs (negation f) = ground (arith, evaluate-degree names attrs f)
  evaluate-degree names attrs (equality valid name value) = refl
  evaluate-degree names attrs (substrings name parts) = refl

  least-le :
      {Dn : Type 0} (names : Names Dn) (attrs : Table Text (List Text)) (fs : Filters)
      → least names attrs fs ≤ 2
  least-le names attrs end = omega arith
  least-le names attrs (also f fs) = omega (arith, least-le names attrs fs)

  and-least :
      {Dn : Type 0} (names : Names Dn) (attrs : Table Text (List Text)) (undefined : Bool)
      (fs : Filters)
      → grade (evaluate_and names attrs undefined fs)
        ≡ min (if undefined then 1 else 2) (least names attrs fs)
  and-least names attrs undefined end = ground arith
  and-least names attrs undefined (also f fs) = ground (
    arith,
    evaluate-degree names attrs f,
    and-least names attrs undefined fs,
    and-least names attrs true fs,
  )

  or-greatest :
      {Dn : Type 0} (names : Names Dn) (attrs : Table Text (List Text)) (undefined : Bool)
      (fs : Filters)
      → grade (evaluate_or names attrs undefined fs)
        ≡ max (if undefined then 1 else 0) (greatest names attrs fs)
  or-greatest names attrs undefined end = ground arith
  or-greatest names attrs undefined (also f fs) = ground (
    arith,
    evaluate-degree names attrs f,
    or-greatest names attrs undefined fs,
    or-greatest names attrs true fs,
  )

-- The evaluation of a filter, with its early ends, is Kleene's logic of three values: the least
-- degree of a conjunction, the greatest of a disjunction, the complement of a negation.
pub evaluate_kleene :
    {Dn : Type 0} (names : Names Dn) (attrs : Table Text (List Text)) (f : Filter)
    → grade (evaluate names attrs f) ≡ degree names attrs f
evaluate_kleene names attrs f = evaluate-degree names attrs f

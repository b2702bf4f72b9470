-- ===== src/Names/Record.antt =====
-- internal/dnsname/name.go.
use infrastructure_in_a_box.Prelude.{
  ◌≤◌, ◌≡◌, ◌⊎◌, inl, inr, Bool, true, false, ◌&&◌, not, [], ◌∷◌, ◌++◌, arith, ltb, if◌then◌else◌,
  Bool-cases, length, length-append, drop,
}
use infrastructure_in_a_box.Prelude.Text.{
  Text, Unicode, bytes, dot, text_eq, to_lower, is_ascii, contains_byte, trim_suffix, has_prefix,
}
use infrastructure_in_a_box.Names.Labels.{valid_hostname}

abbrev pub star : Text
star = bytes "*."

-- `@` is the domain and `*` the wildcard below it.
abbrev pub expand : Text → Text → Text
expand name domain =
    let named = if text_eq name (bytes "@") then domain else name in
    if text_eq named (bytes "*") then star ++ domain else named

-- strings.CutPrefix(name, "*."): what remains, and whether the wildcard label was there.
unfoldable pub cut_star : Text → Text × Bool
unfolding has_prefix
cut_star name = if has_prefix name star then (drop 2 name, true) else (name, false)

-- A short name, and a wildcard over one, is relative to the domain.
abbrev pub complete : Text → Text → Text
complete name domain =
    if not (text_eq name domain) && not (contains_byte dot name)
    then name ++ (dot ∷ domain)
    else name

abbrev pub restore_star : Bool → Text → Text
restore_star wildcard name = if wildcard then star ++ name else name

-- From CutPrefix to the end.
unfoldable pub record_name : Text × Bool → Text → Text
record_name (name, wildcard) domain =
    let full = complete name domain in
    if not (valid_hostname full)
    then []
    else if ltb 253 (length (restore_star wildcard full))
    then []
    else restore_star wildcard full ++ (dot ∷ [])

-- NormalizeARecord.
unfoldable pub normalize_a_record : Unicode → Text → Text → Text
unfolding record_name cut_star
normalize_a_record u name domain =
    if not (is_ascii name)
    then []
    else (let d = to_lower u (trim_suffix domain (dot ∷ [])) in
        record_name (cut_star (expand (to_lower u (trim_suffix name (dot ∷ []))) d)) d)

-- `r` is a hostname with a trailing dot and at most one `*` label, which stands first.
pub record IsRecordName (r : Text) : Type 0 where
  pub host : Text
  pub wildcard : Bool
  pub spelled : r ≡ restore_star wildcard host ++ (dot ∷ [])
  pub valid : valid_hostname host ≡ true
  pub fits : length r ≤ 254

record_name_result :
    (p : Text × Bool) (d : Text) → (record_name p d ≡ []) ⊎ IsRecordName (record_name p d)
unfolding record_name
record_name_result (n, w) d =
    let full = complete n d in
    elim (Bool-cases (valid_hostname full)) [
      | inr bad ↦ inl (rw bad)
      | inl good ↦ elim (Bool-cases (ltb 253 (length (restore_star w full)))) [
        | inl long ↦ inl (rw (good, long))
        | inr short ↦ inr (record {
          host = full;
          wildcard = w;
          spelled = rw (good, short);
          valid = good;
          fits = rw (good, short) (ground (arith, length-append (restore_star w full) (dot ∷ [])));
        })
      ]
    ]

-- A normalized record name is empty, or a record name that fits DNS.
pub normalize_a_record_result :
    (u : Unicode) (n d : Text)
    → (normalize_a_record u n d ≡ []) ⊎ IsRecordName (normalize_a_record u n d)
unfolding normalize_a_record
normalize_a_record_result u n d =
    let c = to_lower u (trim_suffix d (dot ∷ [])) in
    ground
      (arith, record_name_result (cut_star (expand (to_lower u (trim_suffix n (dot ∷ []))) c)) c)

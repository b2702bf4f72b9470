-- ===== src/Names/Hostname.antt =====
-- internal/lease/hostname.go.
use infrastructure_in_a_box.Prelude.{
  ◌≡◌, ◌⊎◌, inl, inr, true, false, ◌||◌, not, Option, none, some, [], ◌∷◌, ◌++◌, arith, ◌==◌,
  if◌then◌else◌, Bool-cases, Option-cases,
}
use infrastructure_in_a_box.Prelude.Text.{
  Text, Unicode, dot, to_lower, contains_byte, trim_space, trim_suffix, has_suffix,
  has_suffix-append, trim_suffix-append, any-append_right,
}
use infrastructure_in_a_box.Names.Labels.{valid_dns_name, valid_dns_name-bytes, to_lower_fixed}

-- The first line of NormalizeHostname, on the domain.
unfoldable pub canonical_domain : Unicode → Text → Text
canonical_domain u domain = to_lower u (trim_suffix (trim_space u domain) (dot ∷ []))

-- A single label goes under the domain; any other name must be under it already.
unfoldable pub qualify : Text → Text → Option Text
qualify hostname domain =
    if not (contains_byte dot hostname)
    then some (hostname ++ (dot ∷ domain))
    else if has_suffix hostname (dot ∷ domain)
    then some hostname
    else none

abbrev pub finish : Option Text → Text
finish none = []
finish (some name) = if valid_dns_name name then name ++ (dot ∷ []) else []

-- The rest of NormalizeHostname, on the canonical domain.
unfoldable pub normalize_under : Unicode → Text → Text → Text
normalize_under u hostname domain =
    let name = to_lower u (trim_suffix hostname (dot ∷ [])) in
    if not (valid_dns_name domain) || not (valid_dns_name name)
    then []
    else finish (qualify name domain)

-- NormalizeHostname.
unfoldable pub normalize_hostname : Unicode → Text → Text → Text
unfolding normalize_under canonical_domain
normalize_hostname u hostname domain = normalize_under u hostname (canonical_domain u domain)

-- `r` is a valid name under `domain`, with a trailing dot.
pub record IsHostname (domain r : Text) : Type 0 where
  pub name : Text
  pub spelled : r ≡ name ++ (dot ∷ [])
  pub valid : valid_dns_name name ≡ true
  pub under : has_suffix name (dot ∷ domain) ≡ true
  pub dotted : contains_byte dot name ≡ true

pub qualify-under :
    (h d n : Text)
    → qualify h d ≡ some n
    → (has_suffix n (dot ∷ d) ≡ true) × (contains_byte dot n ≡ true)
unfolding qualify
qualify-under h d n e = elim (Bool-cases (contains_byte dot h)) [
  | inl dotted ↦ ground arith
  | inr single ↦
      ground (arith, has_suffix-append h (dot ∷ d), any-append_right (λ c. c == dot) h (dot ∷ d))
]

finish-IsHostname : (h d : Text) → (finish (qualify h d) ≡ []) ⊎ IsHostname d (finish (qualify h d))
finish-IsHostname h d = elim (Option-cases (qualify h d)) [
  | inl e ↦ inl (rw e)
  | inr (n, e) ↦ elim (Bool-cases (valid_dns_name n)) [
    | inl good ↦
        let (under, dotted) = qualify-under h d n e in
        inr (record {
          name = n;
          spelled = rw (e, good);
          valid = good;
          under = under;
          dotted = dotted;
        })
    | inr bad ↦ inl (rw (e, bad))
  ]
]

normalize_under_result :
    (u : Unicode) (h d : Text) → (normalize_under u h d ≡ []) ⊎ IsHostname d (normalize_under u h d)
unfolding normalize_under
normalize_under_result u h d =
    let n = to_lower u (trim_suffix h (dot ∷ [])) in ground (arith, finish-IsHostname n d)

-- A normalized hostname is empty, or a valid name under the canonical domain with a trailing dot.
pub normalize_hostname_result :
    (u : Unicode) (h d : Text)
    → (normalize_hostname u h d ≡ []) ⊎ IsHostname (canonical_domain u d) (normalize_hostname u h d)
unfolding normalize_hostname
normalize_hostname_result u h d = normalize_under_result u h (canonical_domain u d)

-- A canonical name is its own canonical name.
normalize_under_fixed :
    (u : Unicode) (d r : Text)
    → valid_dns_name d ≡ true
    → IsHostname d r
    → normalize_under u r d ≡ r
unfolding normalize_under qualify
normalize_under_fixed u d r good h =
    rw
      (
        h.spelled,
        trim_suffix-append h.name (dot ∷ []),
        to_lower_fixed u h.name (valid_dns_name-bytes h.name h.valid),
        good,
        h.valid,
        h.dotted,
        h.under,
      )
      (rw h.valid)

normalize_under-nil : (u : Unicode) (d : Text) → normalize_under u [] d ≡ []
unfolding normalize_under trim_suffix to_lower valid_dns_name
normalize_under-nil u d = ground arith

normalize_under-bad_domain :
    (u : Unicode) (h d : Text) → valid_dns_name d ≡ false → normalize_under u h d ≡ []
unfolding normalize_under
normalize_under-bad_domain u h d bad = rw bad

-- Normalizing a hostname twice changes nothing.
pub normalize_hostname_idem :
    (u : Unicode) (h d : Text)
    → normalize_hostname u (normalize_hostname u h d) d ≡ normalize_hostname u h d
unfolding normalize_hostname
normalize_hostname_idem u h d =
    let c = canonical_domain u d in
    elim (normalize_under_result u h c) [
      | inl e ↦ rw e (normalize_under-nil u c)
      | inr r ↦ elim (Bool-cases (valid_dns_name c)) [
        | inl good ↦ normalize_under_fixed u c (normalize_under u h c) good r
        | inr bad ↦ rw (normalize_under-bad_domain u h c bad) (normalize_under-nil u c)
      ]
    ]

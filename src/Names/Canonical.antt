-- ===== src/Names/Canonical.antt =====
-- A valid name is its own canonical form.
use infrastructure_in_a_box.Prelude.{
  ℕ, ◌-◌, ◌≡◌, refl, sym, ap, ◌∙◌, inl, inr, true, false, not, List, [], ◌∷◌, ◌++◌, arith, ltb,
  ◌==◌, Bool-cases, length, all, take, drop, take-append-drop,
}
use infrastructure_in_a_box.Prelude.Text.{
  Text, Unicode, dot, split, cons_head, trim_space, trim_suffix, has_suffix, is_space, skip_spaces,
  drop_spaces, all_mono,
}
use infrastructure_in_a_box.Names.Labels.{
  valid_label, valid_dns_name, valid_dns_name-bytes, is_name_or_dot, name_byte-ascii,
  to_lower_fixed,
}
use infrastructure_in_a_box.Names.Hostname.{canonical_domain}

name_byte-not_space : (c : ℕ) → is_name_or_dot c ≡ true → not (is_space c) ≡ true
name_byte-not_space c h = ground arith

skip_spaces_fixed : (s : Text) → all (λ c. not (is_space c)) s ≡ true → skip_spaces s ≡ s
skip_spaces_fixed [] h = refl
skip_spaces_fixed (c ∷ s) h = ground arith

drop_spaces_fixed : (s : Text) → all (λ c. not (is_space c)) s ≡ true → drop_spaces s ≡ s
drop_spaces_fixed [] h = refl
drop_spaces_fixed (c ∷ []) h = ground arith
drop_spaces_fixed (c ∷ d ∷ s) h = rw (drop_spaces_fixed (d ∷ s) (ground arith)) refl

trim_space_fixed : (u : Unicode) (s : Text) → all is_name_or_dot s ≡ true → trim_space u s ≡ s
unfolding trim_space
trim_space_fixed u s h =
    let plain = all_mono is_name_or_dot (λ c. not (is_space c)) name_byte-not_space s h in
    rw (all_mono is_name_or_dot (λ c. ltb c 128) name_byte-ascii s h, skip_spaces_fixed s plain)
      (drop_spaces_fixed s plain)

all-cons_head-false :
    (c : ℕ) (p : Text) (ps : List Text)
    → all valid_label ps ≡ false
    → all valid_label (cons_head c (p ∷ ps)) ≡ false
all-cons_head-false c p ps h = ground arith

-- A dot at the end leaves an empty label behind the first.
split-dot_end :
    (t : Text)
    → (p : Text) × (ps : List Text) × (split dot (t ++ (dot ∷ [])) ≡ p ∷ ps)
      × (all valid_label ps ≡ false)
unfolding split valid_label
split-dot_end [] = ([], [] ∷ [], refl, refl)
split-dot_end (c ∷ t) =
    let (p, ps, e, bad) = split-dot_end t in
    elim (Bool-cases (c == dot)) [
      | inl hit ↦ ([], p ∷ ps, rw (hit, e) refl, ground arith)
      | inr miss ↦ (c ∷ p, ps, rw (miss, e) refl, bad)
    ]

valid-dot_end : (t : Text) → all valid_label (split dot (t ++ (dot ∷ []))) ≡ false
valid-dot_end t = let (p, ps, e, bad) = split-dot_end t in rw e (ground arith)

-- A valid name does not end in a dot.
pub valid_dns_name-no_dot : (s : Text) → valid_dns_name s ≡ true → has_suffix s (dot ∷ []) ≡ false
unfolding has_suffix valid_dns_name
valid_dns_name-no_dot s h = elim (Bool-cases (has_suffix s (dot ∷ []))) [
  | inr no_dot ↦ no_dot
  | inl ends ↦
      let front = take (length s - 1) s in
      let whole : front ++ (dot ∷ []) ≡ s =
        ap (◌++◌ front) (sym (tail_eq ends)) ∙ take-append-drop (length s - 1) s in
      cc (labels, rw whole at (valid-dot_end front))
]
  where
    tail_eq : has_suffix s (dot ∷ []) ≡ true → drop (length s - 1) s ≡ dot ∷ []
    tail_eq e = ground arith

    labels : all valid_label (split dot s) ≡ true
    labels = ground arith

-- NormalizeHostname and newManager may both canonicalize the domain: the second changes nothing.
pub canonical_domain_fixed :
    (u : Unicode) (d : Text) → valid_dns_name d ≡ true → canonical_domain u d ≡ d
unfolding canonical_domain trim_suffix
canonical_domain_fixed u d h =
    rw (trim_space_fixed u d (valid_dns_name-bytes d h), valid_dns_name-no_dot d h)
      (to_lower_fixed u d (valid_dns_name-bytes d h))

-- ===== src/Names/Labels.antt =====
-- The label rule that internal/lease/hostname.go and internal/dnsname/name.go share.
use infrastructure_in_a_box.Prelude.{
  ℕ, ◌≡◌, refl, Bool, true, false, ◌&&◌, ◌||◌, not, List, [], ◌∷◌, map, arith, inl, inr, ltb, leb,
  ◌==◌, if◌then◌else◌, Bool-cases, length, last_or, all,
}
use infrastructure_in_a_box.Prelude.Text.{
  Text, Unicode, dot, split, cons_head, lower_byte, to_lower, all_mono,
}

-- `(c < 'a' || c > 'z') && (c < '0' || c > '9') && c != '-'` is its negation.
abbrev pub is_name_byte : ℕ → Bool
is_name_byte c = (leb b'a' c && leb c b'z') || (leb b'0' c && leb c b'9') || c == b'-'

-- One round of the loop over the labels. A rune that is not ASCII fails the byte test too.
unfoldable pub valid_label : Text → Bool
valid_label [] = false
valid_label (c ∷ label) =
    not (ltb 63 (length (c ∷ label)) || c == b'-' || last_or label c == b'-')
    && all is_name_byte (c ∷ label)

-- validDNSName.
unfoldable pub valid_dns_name : Text → Bool
unfolding valid_label split
valid_dns_name name =
    if length name == 0 || ltb 253 (length name) then false else all valid_label (split dot name)

-- validHostname of internal/dnsname.
unfoldable pub valid_hostname : Text → Bool
unfolding valid_label split
valid_hostname name = all valid_label (split dot name)

-- What a name of valid labels is made of.
abbrev pub is_name_or_dot : ℕ → Bool
is_name_or_dot c = c == dot || is_name_byte c

pub valid_label-bytes : (l : Text) → valid_label l ≡ true → all is_name_byte l ≡ true
unfolding valid_label
valid_label-bytes [] h = refl
valid_label-bytes (c ∷ l) h = ground arith

-- The labels of `c ∷ s` hold `c` and the bytes of the labels of `s`.
all-cons_head :
    (c : ℕ) (parts : List Text)
    → all (λ l. all is_name_byte l) (cons_head c parts) ≡ true
    → (is_name_byte c ≡ true) × (all (λ l. all is_name_byte l) parts ≡ true)
all-cons_head c [] h = ground arith
all-cons_head c (p ∷ ps) h = ground arith

split-bytes :
    (s : Text) → all (λ l. all is_name_byte l) (split dot s) ≡ true → all is_name_or_dot s ≡ true
unfolding split
split-bytes [] h = refl
split-bytes (c ∷ s) h = elim (Bool-cases (c == dot)) [
  | inl hit ↦ ground (arith, split-bytes s)
  | inr miss ↦ ground (arith, all-cons_head c (split dot s), split-bytes s)
]

labels-bytes :
    (ls : List Text) → all valid_label ls ≡ true → all (λ l. all is_name_byte l) ls ≡ true
labels-bytes [] h = refl
labels-bytes (l ∷ ls) h = ground (arith, valid_label-bytes l, labels-bytes ls)

pub valid_hostname-bytes : (s : Text) → valid_hostname s ≡ true → all is_name_or_dot s ≡ true
unfolding valid_hostname
valid_hostname-bytes s h = split-bytes s (labels-bytes (split dot s) h)

pub valid_dns_name-bytes : (s : Text) → valid_dns_name s ≡ true → all is_name_or_dot s ≡ true
unfolding valid_dns_name
valid_dns_name-bytes s h = split-bytes s (labels-bytes (split dot s) (ground arith))

-- Such bytes are ASCII, and lower case already.
pub name_byte-ascii : (c : ℕ) → is_name_or_dot c ≡ true → ltb c 128 ≡ true
name_byte-ascii c h = ground arith

lower_byte_fixed : (c : ℕ) → is_name_or_dot c ≡ true → lower_byte c ≡ c
lower_byte_fixed c h = ground arith

map-lower_byte : (s : Text) → all is_name_or_dot s ≡ true → map lower_byte s ≡ s
map-lower_byte [] h = refl
map-lower_byte (c ∷ s) h = ground (arith, lower_byte_fixed c, map-lower_byte s)

pub to_lower_fixed : (u : Unicode) (s : Text) → all is_name_or_dot s ≡ true → to_lower u s ≡ s
unfolding to_lower
to_lower_fixed u s h =
    rw (all_mono is_name_or_dot (λ c. ltb c 128) name_byte-ascii s h) (map-lower_byte s h)

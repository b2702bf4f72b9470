-- ===== src/Prelude/Text.antt =====
-- Go strings and byte slices as lists of bytes, and what the program uses of package strings.
use Prim.Native.Char.{code}
use Prim.Native.String.{String}
use Prim.Native.Nat.{ℕ, ◌+◌, ◌-◌}
use mathlib.Core.Path.{◌≡◌, refl, ap, ◌∙◌}
use mathlib.Core.Logic.{inl, inr}
use mathlib.Core.Bool.{Bool, true, false, ◌&&◌, ◌||◌}
use mathlib.Core.List.{List, [], ◌∷◌, ◌++◌, map}
use native.Mathlib.Omega.{arith}
use native.Mathlib.Decide.{ℕ_discrete}
use infrastructure_in_a_box.Prelude.Tests.{ltb, leb, ◌==◌, if◌then◌else◌, holds, Bool-cases, ==→eq}
use infrastructure_in_a_box.Prelude.Lists.{
  length, all, any, take, drop, length-append, take-append, drop-append,
}

abbrev pub Text : Type 0
Text = List ℕ

-- The bytes of an ASCII literal.
abbrev pub bytes : String → Text
bytes String.[] = []
bytes (String.◌∷◌ c s) = code c ∷ bytes s

unfoldable pub text_discrete : Discrete Text
unfolding ℕ_discrete
text_discrete = hlevel ℕ_discrete

-- `a == b` on strings.
abbrev pub text_eq : Text → Text → Bool
text_eq a b = holds (text_discrete a b)

abbrev pub dot : ℕ
dot = b'.'

-- `c < utf8.RuneSelf` for every byte.
abbrev pub is_ascii : Text → Bool
is_ascii = all (λ c. ltb c 128)

abbrev pub lower_byte : ℕ → ℕ
lower_byte c = if leb b'A' c && leb c b'Z' then c + 32 else c

abbrev pub is_space : ℕ → Bool
is_space c = c == 32 || (leb 9 c && leb c 13)

-- The Unicode tables of package unicode, which the program reaches through strings.ToLower and
-- strings.TrimSpace on text that is not ASCII.
pub record Unicode : Type 0 where
  pub lower : Text → Text
  pub trim : Text → Text

-- strings.ToLower.
unfoldable pub to_lower : Unicode → Text → Text
to_lower u s = if is_ascii s then map lower_byte s else u.lower s

abbrev pub skip_spaces : Text → Text
skip_spaces [] = []
skip_spaces (c ∷ s) = if is_space c then skip_spaces s else c ∷ s

-- What remains in front of the spaces at the end.
abbrev pub drop_spaces : Text → Text
drop_spaces [] = []
drop_spaces (c ∷ s) = cons_unless_blank c (drop_spaces s)
  where
    cons_unless_blank : ℕ → Text → Text
    cons_unless_blank c [] = if is_space c then [] else c ∷ []
    cons_unless_blank c (d ∷ r) = c ∷ d ∷ r

-- strings.TrimSpace.
unfoldable pub trim_space : Unicode → Text → Text
trim_space u s = if is_ascii s then drop_spaces (skip_spaces s) else u.trim s

-- strings.HasSuffix(s, suffix).
unfoldable pub has_suffix : Text → Text → Bool
has_suffix s suffix =
    leb (length suffix) (length s) && text_eq (drop (length s - length suffix) s) suffix

-- strings.TrimSuffix(s, suffix).
unfoldable pub trim_suffix : Text → Text → Text
unfolding has_suffix
trim_suffix s suffix = if has_suffix s suffix then take (length s - length suffix) s else s

-- strings.HasPrefix(s, prefix).
unfoldable pub has_prefix : Text → Text → Bool
has_prefix s prefix = text_eq (take (length prefix) s) prefix

-- strings.Contains(s, sep) for a separator of one byte.
abbrev pub contains_byte : ℕ → Text → Bool
contains_byte sep = any (λ c. c == sep)

-- A byte in front of the first part.
abbrev pub cons_head : ℕ → List Text → List Text
cons_head c [] = (c ∷ []) ∷ []
cons_head c (part ∷ parts) = (c ∷ part) ∷ parts

-- strings.Split(s, sep), strings.SplitSeq(s, sep) and bytes.Split for a separator of one byte.
unfoldable pub split : ℕ → Text → List Text
split sep [] = [] ∷ []
split sep (c ∷ s) = if c == sep then [] ∷ split sep s else cons_head c (split sep s)

-- strings.Join(parts, sep) for a separator of one byte.
unfoldable pub join : ℕ → List Text → Text
join sep [] = []
join sep (part ∷ []) = part
join sep (part ∷ next ∷ parts) = part ++ (sep ∷ join sep (next ∷ parts))

length-minus : (a b : Text) → length (a ++ b) - length b ≡ length a
length-minus a b = omega (arith, length-append a b)

pub text_eq_self : (a : Text) → text_eq a a ≡ true
text_eq_self a = ground arith

pub has_suffix-append : (a suffix : Text) → has_suffix (a ++ suffix) suffix ≡ true
unfolding has_suffix
has_suffix-append a suffix =
    rw (length-minus a suffix, drop-append a suffix)
      (ground (arith, length-append a suffix, text_eq_self suffix))

pub trim_suffix-append : (a suffix : Text) → trim_suffix (a ++ suffix) suffix ≡ a
unfolding trim_suffix
trim_suffix-append a suffix =
    rw (has_suffix-append a suffix, length-minus a suffix) (take-append a suffix)

pub all-append :
    (p : ℕ → Bool) (a b : Text) → all p a ≡ true → all p b ≡ true → all p (a ++ b) ≡ true
all-append p [] b h k = k
all-append p (c ∷ a) b h k = ground (arith, all-append p a b)

pub all-of-append :
    (p : ℕ → Bool) (a b : Text) → all p (a ++ b) ≡ true → (all p a ≡ true) × (all p b ≡ true)
all-of-append p [] b h = (refl, h)
all-of-append p (c ∷ a) b h = ground (arith, all-of-append p a b)

-- A test that implies another byte by byte implies it of a text.
pub all_mono :
    (p q : ℕ → Bool)
    → ((c : ℕ) → p c ≡ true → q c ≡ true)
    → (s : Text) → all p s ≡ true
    → all q s ≡ true
all_mono p q h [] e = refl
all_mono p q h (c ∷ s) e = ground (arith, h c, all_mono p q h s)

pub any-append_right : (p : ℕ → Bool) (a b : Text) → any p b ≡ true → any p (a ++ b) ≡ true
any-append_right p [] b h = h
any-append_right p (c ∷ a) b h = ground (arith, any-append_right p a b)

test_split : split dot (bytes "a.bc.") ≡ bytes "a" ∷ bytes "bc" ∷ [] ∷ []
unfolding split
test_split = refl

-- Splitting undoes joining, where no part holds the separator and there is a part.
pub split-part :
    (sep : ℕ) (part rest : Text)
    → contains_byte sep part ≡ false
    → split sep (part ++ (sep ∷ rest)) ≡ part ∷ split sep rest
unfolding split
split-part sep [] rest h = ground arith
split-part sep (c ∷ part) rest h = ground (arith, split-part sep part rest)

split-single : (sep : ℕ) (part : Text) → contains_byte sep part ≡ false → split sep part ≡ part ∷ []
unfolding split
split-single sep [] h = refl
split-single sep (c ∷ part) h = ground (arith, split-single sep part)

pub split-join :
    (sep : ℕ) (part : Text) (parts : List Text)
    → any (λ p. contains_byte sep p) (part ∷ parts) ≡ false
    → split sep (join sep (part ∷ parts)) ≡ part ∷ parts
unfolding join
split-join sep part [] h = split-single sep part (ground arith)
split-join sep part (next ∷ parts) h =
    split-part sep part (join sep (next ∷ parts)) (ground arith)
    ∙ ap (◌∷◌ part) (split-join sep next parts (ground arith))

join-cons_head : (sep c : ℕ) (parts : List Text) → join sep (cons_head c parts) ≡ c ∷ join sep parts
unfolding join
join-cons_head sep c [] = refl
join-cons_head sep c (p ∷ []) = refl
join-cons_head sep c (p ∷ q ∷ parts) = refl

pub split-cons : (sep : ℕ) (s : Text) → (p : Text) × (ps : List Text) × (split sep s ≡ p ∷ ps)
unfolding split
split-cons sep [] = ([], [], refl)
split-cons sep (c ∷ s) = elim (Bool-cases (c == sep)) [
  | inl hit ↦ ([], split sep s, rw hit)
  | inr miss ↦ let (p, ps, e) = split-cons sep s in (c ∷ p, ps, rw (miss, e))
]

-- Joining undoes splitting.
pub join-split : (sep : ℕ) (s : Text) → join sep (split sep s) ≡ s
unfolding split join
join-split sep [] = refl
join-split sep (c ∷ s) = elim (Bool-cases (c == sep)) [
  | inl hit ↦
      let (p, ps, e) = split-cons sep s in
      rw (hit, e) (ground (arith, ==→eq c sep hit, join-split sep s))
  | inr miss ↦ rw (miss, join-cons_head sep c (split sep s)) (ap (◌∷◌ c) (join-split sep s))
]

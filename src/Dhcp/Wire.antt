-- ===== src/Dhcp/Wire.antt =====
-- A name that the server puts into an FQDN option is the name that it reads from such an option.
use infrastructure_in_a_box.Prelude.{
  ℕ, zero, suc, ◌+◌, ◌*◌, ◌/◌, ◌%◌, ◌≤◌, ◌<◌, ◌≡◌, refl, ap, ◌∙◌, ◌⊎◌, inl, inr, true, false, List,
  [], ◌∷◌, ◌++◌, if◌then◌else◌, ltb, ◌==◌, length, arith, all, length-append, take-append,
  drop-append,
}
use mathlib.Core.List.{append_assoc, append-nil}
use infrastructure_in_a_box.Prelude.Text.{Text, dot, split, join, join-split, trim_suffix-append}
use infrastructure_in_a_box.Names.Labels.{valid_label, valid_dns_name}
use infrastructure_in_a_box.Dhcp.Hostname.{
  bit_e, bit_s, wire_name, fqdn_name, wire_labels, reply_flags, fqdn_answer,
}

valid_label-length : (l : Text) → valid_label l ≡ true → (0 < length l) × (length l ≤ 63)
unfolding valid_label
valid_label-length [] h = cc
valid_label-length (c ∷ l) h = ground arith

wire_name-label :
    (fuel : ℕ) (labels : List Text) (l rest : Text)
    → 0 < length l
    → length l ≤ 63
    → 0 < length rest
    → wire_name (suc fuel) labels ((length l % 256) ∷ (l ++ rest))
      ≡ wire_name fuel (labels ++ (l ∷ [])) rest
unfolding wire_name
wire_name-label fuel labels l rest h k r =
    let small : length l % 256 ≡ length l = omega arith in
    rw (small, take-append l rest, drop-append l rest) (ground (arith, length-append l rest))

wire_name-labels :
    (fuel : ℕ) (ls before : List Text)
    → all valid_label ls ≡ true
    → length ls < fuel
    → wire_name fuel before (wire_labels ls ++ (0 ∷ [])) ≡ join dot (before ++ ls)
unfolding wire_labels
wire_name-labels zero ls before h f = absurd (omega arith)
wire_name-labels (suc fuel) [] before h f = unfold wire_name in (rw (append-nil before) refl)
wire_name-labels (suc fuel) (l ∷ ls) before h f =
    let (pos, small) = valid_label-length l (ground arith) in
    let end : Text = wire_labels ls ++ (0 ∷ []) in
    ap (λ (t : Text). wire_name (suc fuel) before ((length l % 256) ∷ t))
      (append_assoc l (wire_labels ls) (0 ∷ []))
    ∙ wire_name-label fuel before l end pos small
        (omega (arith, length-append (wire_labels ls) (0 ∷ [])))
    ∙ wire_name-labels fuel ls (before ++ (l ∷ [])) (ground arith) (omega arith)
    ∙ ap (join dot) (append_assoc before (l ∷ []) ls)

wire_labels-length : (ls : List Text) → length ls ≤ length (wire_labels ls)
unfolding wire_labels
wire_labels-length [] = omega arith
wire_labels-length (l ∷ ls) =
    let rest = wire_labels-length ls in omega (arith, length-append l (wire_labels ls))

-- The flags of an answer that carries a name.
named_flags : ℕ → ℕ → ℕ
named_flags e s = e * 4 + 1 + (if 1 == s then 0 else 2)

named_flags-reserved : (e s : ℕ) → e < 2 → named_flags e s / 16 ≡ 0
unfolding named_flags
named_flags-reserved e s h = ground arith

named_flags-n : (e s : ℕ) → e < 2 → named_flags e s / 8 % 2 ≡ 0
unfolding named_flags
named_flags-n e s h = ground arith

named_flags-e : (e s : ℕ) → e < 2 → named_flags e s / 4 % 2 ≡ e
unfolding named_flags
named_flags-e e s h = ground arith

reply_flags-named :
    (raw hostname : Text)
    → 0 < length hostname
    → reply_flags raw hostname ≡ named_flags (bit_e raw) (bit_s raw)
unfolding named_flags
reply_flags-named raw hostname h = ground arith

three_more : (n : ℕ) → ltb (suc (suc (suc n))) 3 ≡ false
three_more n = ground arith

fqdn_name-plain :
    (f : ℕ) (name : Text)
    → f / 16 ≡ 0
    → f / 8 % 2 ≡ 0
    → f / 4 % 2 ≡ 0
    → fqdn_name (f ∷ 0 ∷ 0 ∷ name) ≡ name
unfolding fqdn_name
fqdn_name-plain f name a b c = ground arith

fqdn_name-wire :
    (f : ℕ) (ls : List Text)
    → f / 16 ≡ 0
    → f / 8 % 2 ≡ 0
    → f / 4 % 2 ≡ 1
    → all valid_label ls ≡ true
    → fqdn_name (f ∷ 0 ∷ 0 ∷ (wire_labels ls ++ (0 ∷ []))) ≡ join dot ls
unfolding fqdn_name
fqdn_name-wire f ls a b c h =
    let enough : length ls < suc (suc (suc (length (wire_labels ls ++ (0 ∷ []))))) =
      (let k = wire_labels-length ls in omega (arith, length-append (wire_labels ls) (0 ∷ []))) in
    rw (a, b, c, three_more (length (wire_labels ls ++ (0 ∷ []))))
      (wire_name-labels (suc (suc (suc (length (wire_labels ls ++ (0 ∷ [])))))) ls [] h enough)

dotted-nonempty : (name : Text) → 0 < length (name ++ (dot ∷ []))
dotted-nonempty name = omega (arith, length-append name (dot ∷ []))

-- The answer to an option of ASCII form, and to one of wire form.
fqdn_answer-ascii :
    (raw name : Text)
    → 3 ≤ length raw
    → bit_e raw ≡ 0
    → fqdn_answer raw (name ++ (dot ∷ [])) ≡ named_flags (bit_e raw) (bit_s raw) ∷ 0 ∷ 0 ∷ name
unfolding fqdn_answer
fqdn_answer-ascii raw name k e =
    let long : ltb (length raw) 3 ≡ false = ground arith in
    let ascii : (bit_e raw == 0) ≡ true = ground arith in
    rw (long, ascii, trim_suffix-append name (dot ∷ []))
      (ap (λ (f : ℕ). f ∷ 0 ∷ 0 ∷ name)
        (reply_flags-named raw (name ++ (dot ∷ [])) (dotted-nonempty name)))

fqdn_answer-wire :
    (raw name : Text)
    → 3 ≤ length raw
    → bit_e raw ≡ 1
    → fqdn_answer raw (name ++ (dot ∷ []))
      ≡ named_flags (bit_e raw) (bit_s raw) ∷ 0 ∷ 0 ∷ (wire_labels (split dot name) ++ (0 ∷ []))
unfolding fqdn_answer
fqdn_answer-wire raw name k e =
    let long : ltb (length raw) 3 ≡ false = ground arith in
    let wire : (bit_e raw == 0) ≡ false = ground arith in
    let pos = dotted-nonempty name in
    let named : (length (name ++ (dot ∷ [])) == 0) ≡ false = ground arith in
    rw
      (
        long,
        wire,
        trim_suffix-append name (dot ∷ []),
        reply_flags-named raw (name ++ (dot ∷ [])) pos,
        named,
      )
      refl

bit_e-cases : (raw : Text) → (bit_e raw ≡ 0) ⊎ (bit_e raw ≡ 1)
bit_e-cases raw = ground arith

-- A valid name that the server answers an FQDN option of at least three bytes with, in the form
-- that the client chose, is read back from the answer by the rules for such options.
pub answered_name :
    (raw name : Text)
    → 3 ≤ length raw
    → valid_dns_name name ≡ true
    → fqdn_name (fqdn_answer raw (name ++ (dot ∷ []))) ≡ name
unfolding valid_dns_name
answered_name raw name k h =
    let e = bit_e raw in
    let small : e < 2 = ground arith in
    let reserved = named_flags-reserved e (bit_s raw) small in
    let n = named_flags-n e (bit_s raw) small in
    let same = named_flags-e e (bit_s raw) small in
    elim (bit_e-cases raw) [
      | inl ascii ↦
          ap fqdn_name (fqdn_answer-ascii raw name k ascii)
          ∙ fqdn_name-plain (named_flags e (bit_s raw)) name reserved n (same ∙ ascii)
      | inr wire ↦
          ap fqdn_name (fqdn_answer-wire raw name k wire)
          ∙ fqdn_name-wire (named_flags e (bit_s raw)) (split dot name) reserved n (same ∙ wire)
              (ground arith)
          ∙ join-split dot name
    ]

-- ===== src/Tftp/Requests.antt =====
-- What parseRequest accepts.
use infrastructure_in_a_box.Prelude.{
  ℕ, ◌≤◌, ◌≡◌, refl, ◌≢◌, inl, inr, true, false, ◌||◌, not, List, [], ◌∷◌, ◌++◌, Option, none, some,
  min, ltb, ◌==◌, any, all, length, last_or, arith, Bool-cases, Option-cases,
}
use infrastructure_in_a_box.Prelude.Results.{ok, fail_if, >>=-eq-ok}
use infrastructure_in_a_box.Prelude.Text.{
  Text, Unicode, bytes, text_eq, split, contains_byte, to_lower,
}
use infrastructure_in_a_box.Prelude.Numbers.{
  parse_uint, parse_uint-some, itoa, itoa-digits, uint16_at, is_digit,
}
use infrastructure_in_a_box.Tftp.Request.{
  ReadRequest, error_of, defaults, add_option, within, valid_path, set_block_size, set_timeout,
  set_transfer_size, set_option, parse_options, parse_fields, parse_request, max_block_size, is_odd,
  is_octet, body, max_request_size, op_read,
}

-- Neither the key nor the value holds a NUL byte.
abbrev pub IsField : Text × Text → Type 0
IsField (key, value) = (contains_byte 0 key ≡ false) × (contains_byte 0 value ≡ false)

abbrev pub AllFields : List (Text × Text) → Type 0
AllFields [] = Unit {0}
AllFields (o ∷ os) = IsField o × AllFields os

-- What a transfer relies on.
pub record IsServable (r : ReadRequest) : Type 0 where
  pub block_low : 8 ≤ r.block_size
  pub block_high : r.block_size ≤ max_block_size
  pub timeout_low : 1 ≤ r.timeout
  pub timeout_high : r.timeout ≤ 255
  pub path : valid_path r.filename ≡ true
  pub not_here : r.filename ≢ bytes "."
  pub no_backslash : contains_byte b'\\' r.filename ≡ false
  pub fields : AllFields r.options

AllFields-add :
    (os : List (Text × Text)) (o : Text × Text)
    → AllFields os
    → IsField o
    → AllFields (os ++ (o ∷ []))
AllFields-add [] o h k = (k, tt)
AllFields-add (p ∷ os) o h k = (h.0, AllFields-add os o h.1 k)

pub digits-no_nul : (s : Text) → all is_digit s ≡ true → contains_byte 0 s ≡ false
digits-no_nul [] h = refl
digits-no_nul (c ∷ s) h = ground (arith, digits-no_nul s)

pub within-some :
    (low high n : ℕ) (o : Option ℕ)
    → within low high o ≡ some n
    → (o ≡ some n) × (low ≤ n) × (n ≤ high)
within-some low high n none e = cc
within-some low high n (some m) e = ground arith

module _ (r r' : ReadRequest) (value : Text) (v : IsServable r) where
  set_block_size-IsServable : set_block_size r value ≡ ok r' → IsServable r'
  unfolding set_block_size
  set_block_size-IsServable e = elim (Option-cases (within 8 65464 (parse_uint 16 value))) [
    | inl missing ↦ cc (rw (missing, set_block_size) at e)
    | inr (n, found) ↦
        let size : ℕ = min n max_block_size in
        let (_, low, _) = within-some 8 65464 n (parse_uint 16 value) found in
        let q : r' ≡ add_option (record r { block_size = size }) (bytes "blksize") (itoa size) =
          ground arith in
        rw q (record {
          block_low = omega arith;
          block_high = omega arith;
          timeout_low = v.timeout_low;
          timeout_high = v.timeout_high;
          path = v.path;
          not_here = v.not_here;
          no_backslash = v.no_backslash;
          fields =
              AllFields-add r.options _ v.fields
                (refl, digits-no_nul (itoa size) (itoa-digits size));
        })
  ]

  set_timeout-IsServable : set_timeout r value ≡ ok r' → IsServable r'
  unfolding set_timeout
  set_timeout-IsServable e = elim (Option-cases (within 1 255 (parse_uint 8 value))) [
    | inl missing ↦ cc (rw (missing, set_timeout) at e)
    | inr (n, found) ↦
        let (parsed, low, high) = within-some 1 255 n (parse_uint 8 value) found in
        let (digits, _) = parse_uint-some 8 n value parsed in
        let q : r' ≡ add_option (record r { timeout = n }) (bytes "timeout") value = ground arith in
        rw q (record {
          block_low = v.block_low;
          block_high = v.block_high;
          timeout_low = low;
          timeout_high = high;
          path = v.path;
          not_here = v.not_here;
          no_backslash = v.no_backslash;
          fields = AllFields-add r.options _ v.fields (refl, digits-no_nul value digits);
        })
  ]

  set_transfer_size-IsServable : set_transfer_size r value ≡ ok r' → IsServable r'
  unfolding set_transfer_size
  set_transfer_size-IsServable e = elim (Option-cases (within 0 0 (parse_uint 64 value))) [
    | inl missing ↦ cc (rw (missing, set_transfer_size) at e)
    | inr (n, found) ↦
        let q : r' ≡ add_option r (bytes "tsize") (bytes "0") = ground arith in
        rw q (record {
          block_low = v.block_low;
          block_high = v.block_high;
          timeout_low = v.timeout_low;
          timeout_high = v.timeout_high;
          path = v.path;
          not_here = v.not_here;
          no_backslash = v.no_backslash;
          fields = AllFields-add r.options _ v.fields (refl, refl);
        })
  ]

  set_option-IsServable : (key : Text) → set_option r key value ≡ ok r' → IsServable r'
  unfolding set_option
  set_option-IsServable key e = elim (Bool-cases (text_eq key (bytes "blksize"))) [
    | inl b ↦ set_block_size-IsServable (rw b at e)
    | inr nb ↦ elim (Bool-cases (text_eq key (bytes "timeout"))) [
      | inl t ↦ set_timeout-IsServable (rw (nb, t) at e)
      | inr nt ↦ elim (Bool-cases (text_eq key (bytes "tsize"))) [
        | inl s ↦ set_transfer_size-IsServable (rw (nb, nt, s) at e)
        | inr other ↦ let q : r' ≡ r = cc (rw (nb, nt, other) at e) in rw q v
      ]
    ]
  ]

parse_options-IsServable :
    (u : Unicode) (r r' : ReadRequest) (seen fields : List Text)
    → IsServable r
    → parse_options u r seen fields ≡ ok r'
    → IsServable r'
unfolding parse_options
parse_options-IsServable u r r' seen [] v e = let q : r' ≡ r = cc in rw q v
parse_options-IsServable u r r' seen (f ∷ []) v e = let q : r' ≡ r = cc in rw q v
parse_options-IsServable u r r' seen (f ∷ value ∷ fields) v e =
    let key = to_lower u f in
    let bad = length key == 0 || length value == 0 || any (λ k. text_eq k key) seen in
    let (_, _, e1) =
      >>=-eq-ok (fail_if bad (error_of 8 (bytes "invalid or duplicate option"))) _ e in
    let (q, set, e2) = >>=-eq-ok (set_option r key value) _ e1 in
    parse_options-IsServable u q r' (key ∷ seen) fields (set_option-IsServable r q value v key set)
      e2

parse_fields-IsServable :
    (u : Unicode) (fields : List Text) (r : ReadRequest)
    → parse_fields u fields ≡ ok r
    → IsServable r
unfolding parse_fields
parse_fields-IsServable u [] r e = cc
parse_fields-IsServable u (f ∷ []) r e = cc
parse_fields-IsServable u (f ∷ mode ∷ options) r e =
    let (_, _, e1) =
      >>=-eq-ok (fail_if (is_odd (length options)) (error_of 4 (bytes "malformed request fields")))
        _ e in
    let bad = not (valid_path f) || text_eq f (bytes ".") || contains_byte b'\\' f in
    let (_, h2, e2) =
      >>=-eq-ok (fail_if bad (error_of 2 (bytes "filename must be a valid relative path"))) _ e1 in
    let (_, _, e3) =
      >>=-eq-ok (fail_if (not (is_octet mode)) (error_of 4 (bytes "only octet mode is supported")))
        _ e2 in
    parse_options-IsServable u (defaults f) r [] options
      (record {
        block_low = omega arith;
        block_high = omega arith;
        timeout_low = omega arith;
        timeout_high = omega arith;
        path = ground arith;
        not_here = λ q. ground arith;
        no_backslash = ground arith;
        fields = tt;
      })
      e3

-- A request that is accepted names a relative path that stays below the root, a block size from 8
-- to 1468 and a timeout from 1 to 255 seconds, and its options hold no NUL byte.
pub parse_request-IsServable :
    (u : Unicode) (packet : Text) (r : ReadRequest) → parse_request u packet ≡ ok r → IsServable r
unfolding parse_request
parse_request-IsServable u packet r e =
    let bad =
      ltb (length packet) 4
      || ltb max_request_size (length packet)
      || not (last_or packet 0 == 0) in
    let (_, _, e1) = >>=-eq-ok (fail_if bad (error_of 4 (bytes "malformed request"))) _ e in
    let (_, _, e2) =
      >>=-eq-ok
        (fail_if (not (uint16_at packet == op_read)) (error_of 4 (bytes "expected read request"))) _
        e1 in
    parse_fields-IsServable u (split 0 (body packet)) r e2

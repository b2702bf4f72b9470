-- ===== src/Tftp/Options.antt =====
-- The options that parseRequest keeps tell of the values that it sets.
use infrastructure_in_a_box.Prelude.{
  ℕ, ◌≡◌, refl, ◌≢◌, ◌⊎◌, inl, inr, true, false, ◌||◌, not, List, [], ◌∷◌, ◌++◌, some, min, ltb,
  ◌==◌, any, length, last_or, arith, Bool-cases, Option-cases,
}
use infrastructure_in_a_box.Prelude.Results.{ok, fail_if, >>=-eq-ok}
use infrastructure_in_a_box.Prelude.Text.{
  Text, Unicode, bytes, text_eq, split, contains_byte, to_lower,
}
use infrastructure_in_a_box.Prelude.Numbers.{parse_uint, parse_uint-itoa, itoa, uint16_at}
use infrastructure_in_a_box.Tftp.Request.{
  ReadRequest, error_of, defaults, add_option, within, valid_path, set_block_size, set_timeout,
  set_transfer_size, set_option, parse_options, parse_fields, parse_request, max_block_size, is_odd,
  is_octet, body, max_request_size, op_read,
}
use infrastructure_in_a_box.Tftp.Requests.{within-some}

-- An option names the block size or the timeout in force, or is a question for the file's size.
abbrev pub IsTold : ℕ → ℕ → Text × Text → Type 0
IsTold size timeout (key, value) =
    ((key ≡ bytes "blksize") × (parse_uint 16 value ≡ some size))
    ⊎ (((key ≡ bytes "timeout") × (parse_uint 8 value ≡ some timeout)) ⊎ (key ≡ bytes "tsize"))

abbrev pub AllTold : ℕ → ℕ → List (Text × Text) → Type 0
AllTold size timeout [] = Unit {0}
AllTold size timeout (o ∷ os) = IsTold size timeout o × AllTold size timeout os

-- No option has the key.
abbrev Lacks : Text → List (Text × Text) → Type 0
Lacks key [] = Unit {0}
Lacks key ((k, value) ∷ os) = (k ≢ key) × Lacks key os

-- The keys of the options have been seen.
abbrev AllSeen : List Text → List (Text × Text) → Type 0
AllSeen seen [] = Unit {0}
AllSeen seen ((k, value) ∷ os) = (any (λ j. text_eq j k) seen ≡ true) × AllSeen seen os

Lacks-unseen :
    (seen : List Text) (key : Text) (os : List (Text × Text))
    → any (λ j. text_eq j key) seen ≡ false
    → AllSeen seen os
    → Lacks key os
Lacks-unseen seen key [] new h = tt
Lacks-unseen seen key ((k, value) ∷ os) new h =
    (λ (e : k ≡ key). cc (rw e at h.0), Lacks-unseen seen key os new h.1)

AllSeen-more :
    (seen : List Text) (key : Text) (os : List (Text × Text))
    → AllSeen seen os
    → AllSeen (key ∷ seen) os
AllSeen-more seen key [] h = tt
AllSeen-more seen key ((k, value) ∷ os) h = (ground arith, AllSeen-more seen key os h.1)

AllSeen-add :
    (seen : List Text) (key value : Text) (os : List (Text × Text))
    → AllSeen (key ∷ seen) os
    → AllSeen (key ∷ seen) (os ++ ((key, value) ∷ []))
AllSeen-add seen key value [] h = (ground arith, tt)
AllSeen-add seen key value ((k, v) ∷ os) h = (h.0, AllSeen-add seen key value os h.1)

AllTold-size :
    (size size' timeout : ℕ) (os : List (Text × Text))
    → Lacks (bytes "blksize") os
    → AllTold size timeout os
    → AllTold size' timeout os
AllTold-size size size' timeout [] l h = tt
AllTold-size size size' timeout ((k, v) ∷ os) l (inl (key, e), h) = absurd (l.0 key)
AllTold-size size size' timeout ((k, v) ∷ os) l (inr other, h) =
    (inr other, AllTold-size size size' timeout os l.1 h)

AllTold-timeout :
    (size timeout timeout' : ℕ) (os : List (Text × Text))
    → Lacks (bytes "timeout") os
    → AllTold size timeout os
    → AllTold size timeout' os
AllTold-timeout size timeout timeout' [] l h = tt
AllTold-timeout size timeout timeout' ((k, v) ∷ os) l (inl block, h) =
    (inl block, AllTold-timeout size timeout timeout' os l.1 h)
AllTold-timeout size timeout timeout' ((k, v) ∷ os) l (inr (inl (key, e)), h) = absurd (l.0 key)
AllTold-timeout size timeout timeout' ((k, v) ∷ os) l (inr (inr asks), h) =
    (inr (inr asks), AllTold-timeout size timeout timeout' os l.1 h)

AllTold-add :
    (size timeout : ℕ) (o : Text × Text) (os : List (Text × Text))
    → AllTold size timeout os
    → IsTold size timeout o
    → AllTold size timeout (os ++ (o ∷ []))
AllTold-add size timeout o [] h told = (told, tt)
AllTold-add size timeout o (p ∷ os) h told = (h.0, AllTold-add size timeout o os h.1 told)

-- What holds of a request while its options are read.
abbrev Keeps : List Text → ReadRequest → Type 0
Keeps seen r = AllTold r.block_size r.timeout r.options × AllSeen seen r.options

module _ (r r' : ReadRequest) (seen : List Text) (value : Text) (v : Keeps seen r) where
  set_block_size-Keeps :
      any (λ j. text_eq j (bytes "blksize")) seen ≡ false
      → set_block_size r value ≡ ok r'
      → Keeps (bytes "blksize" ∷ seen) r'
  unfolding set_block_size
  set_block_size-Keeps new e = elim (Option-cases (within 8 65464 (parse_uint 16 value))) [
    | inl missing ↦ cc (rw (missing, set_block_size) at e)
    | inr (n, found) ↦
        let size : ℕ = min n max_block_size in
        let q : r' ≡ add_option (record r { block_size = size }) (bytes "blksize") (itoa size) =
          ground arith in
        let lacks = Lacks-unseen seen (bytes "blksize") r.options new v.1 in
        rw q (
          AllTold-add size r.timeout _ r.options
              (AllTold-size r.block_size size r.timeout r.options lacks v.0)
              (inl (refl, parse_uint-itoa 16 size (omega arith))),
          AllSeen-add seen (bytes "blksize") (itoa size) r.options
              (AllSeen-more seen (bytes "blksize") r.options v.1),
        )
  ]

  set_timeout-Keeps :
      any (λ j. text_eq j (bytes "timeout")) seen ≡ false
      → set_timeout r value ≡ ok r'
      → Keeps (bytes "timeout" ∷ seen) r'
  unfolding set_timeout
  set_timeout-Keeps new e = elim (Option-cases (within 1 255 (parse_uint 8 value))) [
    | inl missing ↦ cc (rw (missing, set_timeout) at e)
    | inr (n, found) ↦
        let (parsed, _, _) = within-some 1 255 n (parse_uint 8 value) found in
        let q : r' ≡ add_option (record r { timeout = n }) (bytes "timeout") value = ground arith in
        let lacks = Lacks-unseen seen (bytes "timeout") r.options new v.1 in
        rw q (
          AllTold-add r.block_size n _ r.options
              (AllTold-timeout r.block_size r.timeout n r.options lacks v.0)
              (inr (inl (refl, parsed))),
          AllSeen-add seen (bytes "timeout") value r.options
              (AllSeen-more seen (bytes "timeout") r.options v.1),
        )
  ]

  set_transfer_size-Keeps : set_transfer_size r value ≡ ok r' → Keeps (bytes "tsize" ∷ seen) r'
  unfolding set_transfer_size
  set_transfer_size-Keeps e = elim (Option-cases (within 0 0 (parse_uint 64 value))) [
    | inl missing ↦ cc (rw (missing, set_transfer_size) at e)
    | inr (n, found) ↦
        let q : r' ≡ add_option r (bytes "tsize") (bytes "0") = ground arith in
        rw q (
          AllTold-add r.block_size r.timeout _ r.options v.0 (inr (inr refl)),
          AllSeen-add seen (bytes "tsize") (bytes "0") r.options
              (AllSeen-more seen (bytes "tsize") r.options v.1),
        )
  ]

  set_option-Keeps :
      (key : Text)
      → any (λ j. text_eq j key) seen ≡ false
      → set_option r key value ≡ ok r'
      → Keeps (key ∷ seen) r'
  unfolding set_option
  set_option-Keeps key new e = elim (Bool-cases (text_eq key (bytes "blksize"))) [
    | inl b ↦
        let k : key ≡ bytes "blksize" = ground arith in
        rw k (set_block_size-Keeps (rw k at new) (rw b at e))
    | inr nb ↦ elim (Bool-cases (text_eq key (bytes "timeout"))) [
      | inl t ↦
          let k : key ≡ bytes "timeout" = ground arith in
          rw k (set_timeout-Keeps (rw k at new) (rw (nb, t) at e))
      | inr nt ↦ elim (Bool-cases (text_eq key (bytes "tsize"))) [
        | inl s ↦
            let k : key ≡ bytes "tsize" = ground arith in
            rw k (set_transfer_size-Keeps (rw (nb, nt, s) at e))
        | inr other ↦
            let q : r' ≡ r = cc (rw (nb, nt, other) at e) in
            rw q (v.0, AllSeen-more seen key r.options v.1)
      ]
    ]
  ]

-- The options of an accepted request tell of the values in force.
abbrev pub Tells : ReadRequest → Type 0
Tells r = AllTold r.block_size r.timeout r.options

parse_options-Tells :
    (u : Unicode) (r r' : ReadRequest) (seen fields : List Text)
    → Keeps seen r
    → parse_options u r seen fields ≡ ok r'
    → Tells r'
unfolding parse_options
parse_options-Tells u r r' seen [] v e = let q : r' ≡ r = cc in rw q v.0
parse_options-Tells u r r' seen (f ∷ []) v e = let q : r' ≡ r = cc in rw q v.0
parse_options-Tells u r r' seen (f ∷ value ∷ fields) v e =
    let key = to_lower u f in
    let bad = length key == 0 || length value == 0 || any (λ k. text_eq k key) seen in
    let (_, h, e1) =
      >>=-eq-ok (fail_if bad (error_of 8 (bytes "invalid or duplicate option"))) _ e in
    let (q, set, e2) = >>=-eq-ok (set_option r key value) _ e1 in
    parse_options-Tells u q r' (key ∷ seen) fields
      (set_option-Keeps r q seen value v key (ground arith) set) e2

parse_fields-Tells :
    (u : Unicode) (fields : List Text) (r : ReadRequest) → parse_fields u fields ≡ ok r → Tells r
unfolding parse_fields
parse_fields-Tells u [] r e = cc
parse_fields-Tells u (f ∷ []) r e = cc
parse_fields-Tells u (f ∷ mode ∷ options) r e =
    let (_, _, e1) =
      >>=-eq-ok (fail_if (is_odd (length options)) (error_of 4 (bytes "malformed request fields")))
        _ e in
    let bad = not (valid_path f) || text_eq f (bytes ".") || contains_byte b'\\' f in
    let (_, _, e2) =
      >>=-eq-ok (fail_if bad (error_of 2 (bytes "filename must be a valid relative path"))) _ e1 in
    let (_, _, e3) =
      >>=-eq-ok (fail_if (not (is_octet mode)) (error_of 4 (bytes "only octet mode is supported")))
        _ e2 in
    parse_options-Tells u (defaults f) r [] options (tt, tt) e3

pub parse_request-Tells :
    (u : Unicode) (packet : Text) (r : ReadRequest) → parse_request u packet ≡ ok r → Tells r
unfolding parse_request
parse_request-Tells u packet r e =
    let bad =
      ltb (length packet) 4
      || ltb max_request_size (length packet)
      || not (last_or packet 0 == 0) in
    let (_, _, e1) = >>=-eq-ok (fail_if bad (error_of 4 (bytes "malformed request"))) _ e in
    let (_, _, e2) =
      >>=-eq-ok
        (fail_if (not (uint16_at packet == op_read)) (error_of 4 (bytes "expected read request"))) _
        e1 in
    parse_fields-Tells u (split 0 (body packet)) r e2

-- ===== src/Tftp/Acknowledgement.antt =====
-- What the acknowledgement of the options tells the client.
use infrastructure_in_a_box.Prelude.{
  ℕ, ◌<◌, ◌^◌, ◌≡◌, refl, ◌≢◌, ◌⊎◌, inl, inr, false, List, [], ◌∷◌, some, drop, arith,
}
use infrastructure_in_a_box.Prelude.Results.{ok}
use infrastructure_in_a_box.Prelude.Text.{
  Text, Unicode, bytes, text_discrete, split, split-part, contains_byte,
}
use infrastructure_in_a_box.Prelude.Numbers.{
  parse_uint, parse_uint-itoa, itoa, itoa-digits, uint16_at,
}
use infrastructure_in_a_box.Tftp.Request.{
  ReadRequest, parse_request, option_value, option_fields, option_ack,
}
use infrastructure_in_a_box.Tftp.Requests.{AllFields, digits-no_nul, parse_request-IsServable}
use infrastructure_in_a_box.Tftp.Options.{IsTold, AllTold, parse_request-Tells}

-- What an option's answer says: the block size and the timeout that the transfer uses, or the size
-- of the file.
abbrev pub Answers : ReadRequest → ℕ → Text → Text → Type 0
Answers r size key answer =
    ((key ≡ bytes "blksize") × (parse_uint 16 answer ≡ some r.block_size))
    ⊎ (((key ≡ bytes "timeout") × (parse_uint 8 answer ≡ some r.timeout))
        ⊎ ((key ≡ bytes "tsize") × (parse_uint 64 answer ≡ some size)))

-- The fields of an acknowledgement: each key with its answer, in the order of the options.
abbrev pub AllAnswered : ReadRequest → ℕ → List (Text × Text) → List Text → Type 0
AllAnswered r size [] fields = fields ≡ [] ∷ []
AllAnswered r size ((key, value) ∷ options) fields =
    (answer : Text) × (rest : List Text) × (fields ≡ key ∷ answer ∷ rest)
    × Answers r size key answer
    × AllAnswered r size options rest

module _ (r : ReadRequest) (size : ℕ) (fits : size < 2 ^ 64) where
  option_value-Answers :
      (key value : Text)
      → IsTold r.block_size r.timeout (key, value)
      → Answers r size key (option_value size key value)
  unfolding text_discrete
  option_value-Answers key value (inl (k, e)) = inl (k, rw k e)
  option_value-Answers key value (inr (inl (k, e))) = inr (inl (k, rw k e))
  option_value-Answers key value (inr (inr k)) = inr (inr (k, rw k (parse_uint-itoa 64 size fits)))

  option_fields-AllAnswered :
      (os : List (Text × Text))
      → AllFields os
      → AllTold r.block_size r.timeout os
      → AllAnswered r size os (split 0 (option_fields size os))
  unfolding option_fields
  option_fields-AllAnswered [] h told = unfold split in refl
  option_fields-AllAnswered ((key, value) ∷ os) h told =
      rw
        (
          split-part 0 key _ h.0.0,
          split-part 0 (option_value size key value) _ (ground (arith, value_no_nul)),
        )
        (
          option_value size key value,
          split 0 (option_fields size os),
          refl,
          option_value-Answers key value told.0,
          option_fields-AllAnswered os h.1 told.1,
        )
    where
      value_no_nul : contains_byte 0 (itoa size) ≡ false
      value_no_nul = digits-no_nul (itoa size) (itoa-digits size)

  -- The acknowledgement of an accepted request with options is an OACK whose fields give back the
  -- keys of the options in their order: a block size that reads as the one of the transfer, a
  -- timeout that reads as the one in force, and, for a transfer size, the size of the file, if that
  -- fits 64 bits.
  pub option_ack-AllAnswered :
      (u : Unicode) (packet : Text)
      → parse_request u packet ≡ ok r
      → r.options ≢ []
      → (uint16_at (option_ack r size) ≡ 6)
        × AllAnswered r size r.options (split 0 (drop 2 (option_ack r size)))
  unfolding option_ack uint16_at
  option_ack-AllAnswered u packet e some_options =
      go r.options some_options (parse_request-IsServable u packet r e).fields
        (parse_request-Tells u packet r e)
    where
      go :
          (os : List (Text × Text))
          → os ≢ []
          → AllFields os
          → AllTold r.block_size r.timeout os
          → (uint16_at (option_ack (record r { options = os }) size) ≡ 6)
            × AllAnswered r size os (split 0 (drop 2 (option_ack (record r { options = os }) size)))
      go [] n h told = absurd (n refl)
      go (o ∷ os) n h told = (refl, option_fields-AllAnswered (o ∷ os) h told)

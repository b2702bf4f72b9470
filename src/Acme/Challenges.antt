-- ===== src/Acme/Challenges.antt =====
-- internal/acmeserver/orders.go: challenge, before and behind the validation that runs unlocked,
-- and retryInterruptedChallenge.
use infrastructure_in_a_box.Prelude.{
  ℕ, Bool, true, false, ◌&&◌, ◌||◌, not, List, [], ◌∷◌, Option, none, some, if◌then◌else◌, ltb,
}
use infrastructure_in_a_box.Prelude.Text.{Text, bytes, text_discrete, text_eq}
use infrastructure_in_a_box.Prelude.Table.{get, put}
use infrastructure_in_a_box.Acme.State.{
  OrderStatus, AuthorizationStatus, ChallengeStatus, Problem, Target, Order, Authorization, State,
  Server, no_account, or_zero, order_of, authorization_of, put_order, put_authorization, is_pending,
  is_waiting, is_proven, is_processing, is_active,
}
use infrastructure_in_a_box.Acme.Store.{Disk, commit}
use infrastructure_in_a_box.Acme.Accounts.{
  Signed, Reply, problem, limited, internal_error, found_challenge, failure, forbidden, touched,
  active_account,
}
use infrastructure_in_a_box.Acme.Orders.{Site, is_some, own_authorization}

-- retryInterruptedChallenge: what is in memory goes back to pending, the file is left alone.
abbrev pub retried : Authorization → Authorization
retried a = record a { challenge_status = ChallengeStatus.pending }

abbrev pub retry_found : Text → Server → Option Authorization → Server
retry_found id s none = s
retry_found id s (some a) =
    if is_waiting a.status && is_processing a.challenge_status
    then record s { state = put_authorization id (retried a) s.state }
    else s

unfoldable pub retry_interrupted : Text → Server → Server
unfolding get put text_discrete
retry_interrupted id s = retry_found id s (get text_discrete id s.state.authorizations)

-- The answer behind a commit; where it failed, the challenge is retried.
abbrev pub settled {ℓ} : {R : Type ℓ} → Text → R → R → Server × Bool → Server × R
settled id good bad (s, true) = (s, good)
settled id good bad (s, false) = (retry_interrupted id s, bad)

-- What a request to a challenge holds: nothing, an empty object, or anything else.
pub data ChallengeInput : Type 0 where
  empty acknowledged unsupported : ChallengeInput

-- What the first part leads to: an answer, or a validation of an authorization.
pub data Begun : Type 0 where
  answered : Reply → Begun
  validating : Authorization → Begun

abbrev pub processing : Authorization → Authorization
processing a = record a { challenge_status = ChallengeStatus.processing }

-- An authorization whose challenge may start.
abbrev pub is_startable : ℕ → State → Authorization → Bool
is_startable now st a =
    is_waiting a.status && is_pending (order_of st a.order_id).status && ltb now a.expires

-- The request polls, or there is nothing left to validate.
abbrev pub is_polled : ChallengeInput → Authorization → Bool
is_polled empty a = true
is_polled _ a = is_processing a.challenge_status || is_proven a.status

abbrev pub is_unsupported : ChallengeInput → Bool
is_unsupported unsupported = true
is_unsupported _ = false

-- The part of challenge behind the lookup of the authorization.
unfoldable pub start :
    ℕ → Disk → Server → Text → Authorization → ChallengeInput → Bool → Server × Begun
unfolding get text_discrete commit put retry_interrupted
start now disk s id a input has_slot =
    if is_polled input a
    then (s, answered (found_challenge a))
    else if not (is_startable now s.state a)
    then (s, answered (failure 400 (bytes "unauthorized")))
    else if not has_slot
    then (s, answered (limited 5))
    else settled id (validating (processing a)) (answered internal_error)
        (commit now disk s (put_authorization id (processing a) s.state))

-- challenge, up to the validation. `has_slot` tells whether fewer than 32 validations run.
unfoldable pub challenge_begin :
    Site → ℕ → Disk → Server → Signed → Text → Text → ChallengeInput → Bool → Server × Begun
unfolding active_account get text_discrete start
challenge_begin site now disk s signed account_id id input has_slot =
    if is_unsupported input
    then (s, answered (failure 400 (bytes "malformed")))
    else (elim (active_account site.base_url s signed account_id) [
      | none ↦ (s, answered (problem forbidden))
      | some account ↦
          let t = touched now s account_id in
          (elim (own_authorization account_id (get text_discrete id s.state.authorizations)) [
            | none ↦ (t, answered (failure 404 (bytes "malformed")))
            | some a ↦ start now disk t id a input has_slot
          ])
    ])

-- The account has changed its key since the challenge began.
abbrev pub is_rollover : ℕ → Signed → Text → Authorization → State → Bool
is_rollover now signed account_id a st =
    let current = or_zero no_account (get text_discrete account_id st.accounts) in
    is_active current.status
    && not (text_eq current.thumbprint signed.thumbprint)
    && ltb now a.expires
    && is_pending (order_of st a.order_id).status

abbrev pub unproven : Problem
unproven = record { status = 400; kind = bytes "unauthorized" }

abbrev pub failed_authorization : Authorization → Authorization
failed_authorization a = record a {
  status = AuthorizationStatus.invalid;
  challenge_status = ChallengeStatus.invalid;
  error = some unproven;
}

abbrev pub failed_order : Order → Order
failed_order o = record o { status = OrderStatus.invalid; error = some unproven }

abbrev pub proven : ℕ → Target → Authorization → Authorization
proven now target a = record a {
  status = AuthorizationStatus.valid;
  challenge_status = ChallengeStatus.valid;
  validated = some now;
  target = target;
}

-- The loop over the authorizations of an order.
unfoldable pub are_proven : List Text → State → Bool
unfolding get text_discrete
are_proven [] st = true
are_proven (id ∷ ids) st = is_proven (authorization_of st id).status && are_proven ids st

abbrev pub readied : State → Order → Order
readied st o =
    if is_pending o.status && are_proven o.auth_ids st
    then record o { status = OrderStatus.ready }
    else o

-- The snapshot behind a validation that failed, and behind one that did not.
unfoldable pub failed_proof : Text → Authorization → State → State
unfolding get put text_discrete
failed_proof id a st =
    let o = failed_order (order_of st a.order_id) in
    put_order o.id o (put_authorization id (failed_authorization a) st)

unfoldable pub passed_proof : ℕ → Target → Text → Authorization → State → State
unfolding get put text_discrete are_proven
passed_proof now target id a st =
    let next = put_authorization id (proven now target a) st in
    let o = readied next (order_of st a.order_id) in put_order o.id o next

-- The validation counts: it passed, and the account, the authorization and the order still stand.
abbrev pub is_passed : Bool → ℕ → State → Authorization → Bool
is_passed is_usable now st a =
    is_usable && ltb now a.expires && is_pending (order_of st a.order_id).status

abbrev pub snapshot_of : Bool → ℕ → Option Target → Text → Authorization → State → State
snapshot_of is_usable now none id a st = failed_proof id a st
snapshot_of is_usable now (some target) id a st =
    if is_passed is_usable now st a then passed_proof now target id a st else failed_proof id a st

abbrev pub answer_of : Bool → ℕ → Option Target → Authorization → State → Authorization
answer_of is_usable now none a st = failed_authorization a
answer_of is_usable now (some target) a st =
    if is_passed is_usable now st a then proven now target a else failed_authorization a

abbrev pub touched_if : Bool → ℕ → Server → Text → Server
touched_if is_usable now s account_id = if is_usable then touched now s account_id else s

unfoldable pub conclude :
    Site → ℕ → Disk → Server → Signed → Text → Text → Option Target → Authorization → Server × Reply
unfolding active_account get text_discrete commit put retry_interrupted failed_proof passed_proof
conclude site now disk s signed account_id id outcome a =
    let is_usable = is_some (active_account site.base_url s signed account_id) in
    let t = touched_if is_usable now s account_id in
    if not is_usable && is_rollover now signed account_id a t.state
    then (let back : Authorization = record a { challenge_status = ChallengeStatus.pending } in
        settled id (found_challenge back) internal_error
          (commit now disk t (put_authorization id back t.state)))
    else settled id (found_challenge (answer_of is_usable now outcome a t.state)) internal_error
        (commit now disk t (snapshot_of is_usable now outcome id a t.state))

-- challenge, behind the validation. `outcome` is who was validated, or none for an error.
unfoldable pub challenge_finish :
    Site → ℕ → Disk → Server → Signed → Text → Text → Option Target → Server × Reply
unfolding get text_discrete conclude
challenge_finish site now disk s signed account_id id outcome =
    elim (get text_discrete id s.state.authorizations) [
      | none ↦ (s, failure 404 (bytes "malformed"))
      | some a ↦
          if not (is_waiting a.status) || not (is_processing a.challenge_status)
          then (s, found_challenge a)
          else conclude site now disk s signed account_id id outcome a
    ]

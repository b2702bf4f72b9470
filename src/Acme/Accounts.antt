-- ===== src/Acme/Accounts.antt =====
-- internal/acmeserver/accounts.go: newAccount, account, accountOrders, keyChange, activeAccount.
use infrastructure_in_a_box.Prelude.{
  ℕ, Bool, true, false, ◌&&◌, ◌||◌, not, List, [], ◌∷◌, ◌++◌, Option, none, some, if◌then◌else◌,
  ltb, leb, ◌==◌, length,
}
use infrastructure_in_a_box.Prelude.Text.{Text, bytes, text_discrete, text_eq}
use infrastructure_in_a_box.Prelude.Table.{Table, get, put, find, update_all}
use infrastructure_in_a_box.Acme.Limits.{
  Verdict, allowed, no_lease, rate_limited, quotas, allow_creation, record_creation, retry_after,
}
use infrastructure_in_a_box.Acme.State.{
  OrderStatus, AuthorizationStatus, ChallengeStatus, AccountStatus, Problem, Order, Authorization,
  Account, State, Server, is_open, is_waiting, is_active, is_issued, is_failed,
}
use infrastructure_in_a_box.Acme.Store.{Disk, commit, prune, account_idle_lifetime}

-- A verified request: the key that signed it. KeyID is empty where the key was embedded.
pub record Signed : Type 0 where
  pub key_id : Text
  pub key : Text
  pub thumbprint : Text

-- What a handler answers.
pub data Reply : Type 0 where
  problem : Problem → Reply
  limited : ℕ → Reply
  internal_error : Reply
  found_account created_account updated_account : Account → Reply
  conflicting_account : Account → Reply
  order_list : List Text → Reply
  created_order found_order issued_order : Order → Reply
  found_authorization found_challenge : Authorization → Reply
  certificate_chain : Text → Reply
  certificate_revoked : Reply
  revocation_list : Text → Reply

abbrev pub failure : ℕ → Text → Reply
failure status kind = problem (record { status = status; kind = kind })

abbrev pub forbidden : Problem
forbidden = record { status = 403; kind = bytes "unauthorized" }

abbrev pub account_url : Text → Text → Text
account_url base id = base ++ (bytes "/account/" ++ id)

-- The answer that a verdict other than `allowed` leads to.
abbrev pub refusal : Verdict → Option Reply
refusal allowed = none
refusal no_lease = some (problem forbidden)
refusal (rate_limited seconds) = some (limited seconds)

abbrev pub touched : ℕ → Server → Text → Server
touched now s id = record s { activity = put text_discrete id now s.activity }

abbrev pub max_accounts : ℕ
max_accounts = 4096

-- The reply to a request whose snapshot was to be committed.
abbrev pub committed : Server × Bool → Reply → Server × Reply
committed (s, true) reply = (s, reply)
committed (s, false) reply = (s, internal_error)

-- What new-account and account updates send, decoded. `contact` is none where it was not sent, and
-- `bad_contact` tells of one that is refused.
pub record AccountInput : Type 0 where
  pub contact : Option (List Text)
  pub bad_contact : Option Problem
  pub status : Option AccountStatus
  pub only_existing : Bool

abbrev pub contacts : Option (List Text) → List Text
contacts none = []
contacts (some contact) = contact

abbrev pub fresh_account : ℕ → Signed → List Text → Text → Account
fresh_account now signed contact id = record {
  id = id;
  key = signed.key;
  thumbprint = signed.thumbprint;
  status = AccountStatus.valid;
  contact = contact;
  last_active = now;
  recent_orders = [];
}

abbrev pub by_thumbprint : Text → State → Option Account
by_thumbprint thumbprint st = find (λ id (a : Account). text_eq a.thumbprint thumbprint) st.accounts

-- The part of newAccount behind the limits on the lease. `drawn` is randomID's answer.
unfoldable pub add_account :
    ℕ → Disk → Server → Signed → Text → List Text → Option Text → Server × Reply
unfolding prune commit record_creation put text_discrete
add_account now disk s signed source contact drawn =
    let next = prune now s.activity s.state in
    if leb max_accounts (length next.accounts)
    then (s, limited (retry_after account_idle_lifetime))
    else (elim drawn [
      | none ↦ (s, internal_error)
      | some id ↦
          let a = fresh_account now signed contact id in
          committed
            (commit now disk s (record next {
              lease_limits = record_creation quotas now next.lease_limits source true;
              accounts = put text_discrete id a next.accounts;
            }))
            (created_account a)
    ])

abbrev pub limited_account :
    ℕ → Disk → Server → Signed → Text → List Text → Option Text → Option Reply → Server × Reply
limited_account now disk s signed source contact drawn (some reply) = (s, reply)
limited_account now disk s signed source contact drawn none =
    add_account now disk s signed source contact drawn

abbrev pub unknown_account :
    ℕ → Disk → Server → Signed → Text → AccountInput → Option Text → Server × Reply
unknown_account now disk s signed source input drawn =
    if input.only_existing
    then (s, failure 400 (bytes "accountDoesNotExist"))
    else (elim input.bad_contact [
      | some p ↦ (s, problem p)
      | none ↦
          limited_account now disk s signed source (contacts input.contact) drawn
            (refusal (allow_creation quotas now s.state.lease_limits source true))
    ])

-- newAccount, for a payload that was decoded.
unfoldable pub new_account :
    ℕ → Disk → Server → Signed → Text → AccountInput → Option Text → Server × Reply
unfolding add_account find text_discrete
new_account now disk s signed source input drawn =
    if not (length signed.key_id == 0)
    then (s, failure 400 (bytes "malformed"))
    else (elim (by_thumbprint signed.thumbprint s.state) [
      | some a ↦ (touched now s a.id, found_account a)
      | none ↦ unknown_account now disk s signed source input drawn
    ])

-- The account of a request, if it is active and the key that signed is still its own.
abbrev pub usable : Text → Signed → Text → Option Account → Option Account
usable base signed id none = none
usable base signed id (some a) =
    if not (is_active a.status)
      || not (text_eq a.thumbprint signed.thumbprint)
      || not (text_eq signed.key_id (account_url base id))
    then none
    else some a

-- activeAccount, before the activity is noted.
unfoldable pub active_account : Text → Server → Signed → Text → Option Account
unfolding get text_discrete
active_account base s signed id = usable base signed id (get text_discrete id s.state.accounts)

-- What deactivation does to the orders and authorizations of an account.
abbrev pub closed_order : Text → Order → Order
closed_order id o =
    if text_eq o.account_id id && is_open o.status
    then record o { status = OrderStatus.invalid; error = some forbidden }
    else o

abbrev pub closed_authorization : Text → Authorization → Authorization
closed_authorization id a =
    if text_eq a.account_id id && is_waiting a.status
    then record a {
      status = AuthorizationStatus.deactivated;
      challenge_status = ChallengeStatus.invalid;
      error = some forbidden;
    }
    else a

unfoldable pub closed : Text → State → State
unfolding update_all text_discrete
closed id st = record st {
  orders = update_all (closed_order id) st.orders;
  authorizations = update_all (closed_authorization id) st.authorizations;
}

abbrev pub is_deactivated : AccountStatus → Bool
is_deactivated AccountStatus.deactivated = true
is_deactivated _ = false

abbrev pub with_status : Option AccountStatus → Account → Account
with_status none a = a
with_status (some status) a = record a { status = status }

abbrev pub with_contact : Option (List Text) → Account → Account
with_contact none a = a
with_contact (some contact) a = record a { contact = contact }

abbrev pub is_sent {ℓ} : {A : Type ℓ} → Option A → Bool
is_sent none = false
is_sent (some a) = true

abbrev pub changed_account : AccountInput → Account → Account
changed_account input a = with_status input.status (with_contact input.contact a)

-- The snapshot of an update.
unfoldable pub update_account : Text → Account → State → State
unfolding closed put text_discrete
update_account id a st =
    let next : State = record st { accounts = put text_discrete id a st.accounts } in
    if is_deactivated a.status then closed id next else next

-- account, for a payload that was decoded and holds a status that is allowed.
unfoldable pub account :
    Text → ℕ → Disk → Server → Signed → Text → Text → AccountInput → Server × Reply
unfolding active_account update_account commit
account base now disk s signed account_id id input =
    if not (text_eq id account_id) then (s, problem forbidden) else (elim input.bad_contact [
      | some p ↦ (s, problem p)
      | none ↦ elim (active_account base s signed account_id) [
        | none ↦ (s, problem forbidden)
        | some a ↦
            let t = touched now s account_id in
            let b = changed_account input a in
            if is_sent input.contact || is_sent input.status
            then committed (commit now disk t (update_account id b t.state)) (updated_account b)
            else (t, updated_account a)
      ]
    ])

-- keyChange, behind the verification of the inner request: `inner` is the new key.
unfoldable pub key_change : Text → ℕ → Disk → Server → Signed → Text → Signed → Server × Reply
unfolding active_account commit find put text_discrete
key_change base now disk s signed account_id inner =
    if text_eq inner.thumbprint signed.thumbprint
    then (s, failure 400 (bytes "malformed"))
    else (elim (active_account base s signed account_id) [
      | none ↦ (s, problem forbidden)
      | some a ↦
          let t = touched now s account_id in
          let b : Account = record a { key = inner.key; thumbprint = inner.thumbprint } in
          (elim (by_thumbprint inner.thumbprint s.state) [
            | some existing ↦ (t, conflicting_account existing)
            | none ↦
                committed
                  (commit now disk t
                    (record t.state { accounts = put text_discrete account_id b t.state.accounts }))
                  (updated_account b)
          ])
    ])

-- The orders that accountOrders lists, before sorting.
unfoldable pub listed_orders : ℕ → Text → Table Text Order → List Text
unfolding text_discrete
listed_orders now id [] = []
listed_orders now id ((key, o) ∷ orders) =
    if text_eq o.account_id id
      && not (is_failed o.status)
      && (is_issued o.status || ltb now o.expires)
    then o.id ∷ listed_orders now id orders
    else listed_orders now id orders

-- accountOrders, for an empty payload.
unfoldable pub account_orders : Text → ℕ → Server → Signed → Text → Text → Server × Reply
unfolding active_account listed_orders text_discrete
account_orders base now s signed account_id id =
    if not (text_eq account_id id)
    then (s, problem forbidden)
    else (elim (active_account base s signed account_id) [
      | none ↦ (s, problem forbidden)
      | some a ↦ (touched now s account_id, order_list (listed_orders now id s.state.orders))
    ])

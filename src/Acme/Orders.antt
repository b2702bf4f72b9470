-- ===== src/Acme/Orders.antt =====
-- internal/acmeserver/orders.go: newOrder, getOrder and getAuthorization, and allowedName of
-- internal/acmeserver/store.go.
use infrastructure_in_a_box.Prelude.{
  ℕ, ◌+◌, Bool, true, false, ◌&&◌, ◌||◌, not, List, [], ◌∷◌, ◌++◌, Option, none, some,
  if◌then◌else◌, ltb, leb, ◌==◌, length, any,
}
use infrastructure_in_a_box.Prelude.Results.{Result, ok, err, ◌>>=◌, ◌>>◌, fail_if}
use infrastructure_in_a_box.Prelude.Text.{
  Text, Unicode, bytes, dot, is_ascii, to_lower, trim_suffix, contains_byte, text_discrete, text_eq,
}
use infrastructure_in_a_box.Prelude.Table.{Table, get, put}
use infrastructure_in_a_box.Names.Hostname.{normalize_hostname}
use infrastructure_in_a_box.Acme.Limits.{quotas, allow_creation, record_creation, retry_after}
use infrastructure_in_a_box.Acme.State.{
  OrderStatus, AuthorizationStatus, ChallengeStatus, Problem, Target, Identifier, Order,
  Authorization, State, Server, no_account, no_target, or_zero, order_of, put_order,
  put_authorization, is_open, is_processing,
}
use infrastructure_in_a_box.Acme.Store.{Disk, commit, prune, order_lifetime}
use infrastructure_in_a_box.Acme.Accounts.{
  Signed, Reply, problem, limited, internal_error, created_order, found_order, found_authorization,
  failure, forbidden, refusal, touched, committed, active_account,
}

-- What the handlers read of the server besides its state: the public URL, the domain, and the
-- validator's answer for a name, which is a live lease or an error.
pub record Site : Type 0 where
  pub unicode : Unicode
  pub base_url : Text
  pub domain : Text
  pub lookup : Text → Option Target

abbrev pub max_identifiers : ℕ
max_identifiers = 16

abbrev pub max_account_orders : ℕ
max_account_orders = 32

abbrev pub rejected : Problem
rejected = record { status = 400; kind = bytes "rejectedIdentifier" }

-- allowedName.
unfoldable pub allowed_name : Site → Text → Bool
unfolding normalize_hostname trim_suffix text_discrete
allowed_name site name =
    is_ascii name
    && contains_byte dot name
    && text_eq name (trim_suffix (normalize_hostname site.unicode name site.domain) (dot ∷ []))
    && not (text_eq name (bytes "gateway." ++ site.domain))
    && not (text_eq name (bytes "ns." ++ site.domain))

abbrev pub is_some {ℓ} : {A : Type ℓ} → Option A → Bool
is_some none = false
is_some (some a) = true

-- The loop over the identifiers: they are spelled canonically, differ, and have live leases.
unfoldable pub check_identifiers :
    Site → List Text → List Identifier → Result Problem (List Identifier)
unfolding to_lower trim_suffix text_discrete allowed_name
check_identifiers site seen [] = ok []
check_identifiers site seen (i ∷ identifiers) = do
  fail_if (not (is_ascii i.value)) rejected
  let name = to_lower site.unicode (trim_suffix i.value (dot ∷ []))
  fail_if
      (not (text_eq i.kind (bytes "dns"))
        || not (allowed_name site name)
        || any (λ n. text_eq n name) seen)
      rejected
  fail_if (not (is_some (site.lookup name))) rejected
  rest ← check_identifiers site (name ∷ seen) identifiers
  ok (record { kind = i.kind; value = name } ∷ rest)

-- The orders of an account that are outstanding.
unfoldable pub outstanding : Text → Table Text Order → ℕ
unfolding text_discrete
outstanding account [] = 0
outstanding account ((id, o) ∷ orders) =
    (if text_eq o.account_id account && is_open o.status then 1 else 0) + outstanding account orders

abbrev pub fresh_authorization : Order → Text → Text → Text → Authorization
fresh_authorization o name auth_id token = record {
  id = auth_id;
  account_id = o.account_id;
  order_id = o.id;
  name = name;
  status = AuthorizationStatus.pending;
  expires = o.expires;
  token = token;
  challenge_status = ChallengeStatus.pending;
  validated = none;
  target = no_target;
  error = none;
}

-- The loop that makes the authorizations, from the answers of randomID, which may run out.
unfoldable pub make_authorizations :
    Order → List Identifier → List Text → Option (List Authorization)
make_authorizations o [] drawn = some []
make_authorizations o (i ∷ identifiers) (auth_id ∷ token ∷ drawn) =
    elim (make_authorizations o identifiers drawn) [
      | none ↦ none
      | some rest ↦ some (fresh_authorization o i.value auth_id token ∷ rest)
    ]
make_authorizations o (i ∷ identifiers) _ = none

abbrev pub auth_ids_of : List Authorization → List Text
auth_ids_of [] = []
auth_ids_of (a ∷ auths) = a.id ∷ auth_ids_of auths

unfoldable pub put_all : List Authorization → Table Text Authorization → Table Text Authorization
unfolding put text_discrete
put_all [] m = m
put_all (a ∷ auths) m = put_all auths (put text_discrete a.id a m)

abbrev pub fresh_order : ℕ → Text → List Identifier → Text → Order
fresh_order now account_id identifiers id = record {
  id = id;
  account_id = account_id;
  status = OrderStatus.pending;
  expires = now + order_lifetime;
  identifiers = identifiers;
  auth_ids = [];
  certificate_id = [];
  csr = [];
  error = none;
}

-- The snapshot with a new order.
unfoldable pub with_order : ℕ → Text → Order → List Authorization → State → State
unfolding get put text_discrete put_all record_creation
with_order now source o auths next =
    let a = or_zero no_account (get text_discrete o.account_id next.accounts) in
    record next {
      orders = put text_discrete o.id (record o { auth_ids = auth_ids_of auths }) next.orders;
      authorizations = put_all auths next.authorizations;
      accounts =
          put text_discrete o.account_id
            (record a { recent_orders = a.recent_orders ++ (now ∷ []) }) next.accounts;
      lease_limits = record_creation quotas now next.lease_limits source false;
    }

-- Too many outstanding or recent orders, or too many records.
abbrev pub is_over_limit : Text → ℕ → State → Bool
is_over_limit account_id names next =
    leb max_account_orders (outstanding account_id next.orders)
    || leb max_account_orders
        (length (or_zero no_account (get text_discrete account_id next.accounts)).recent_orders)
    || leb quotas.records (length next.orders)
    || ltb quotas.records (length next.authorizations + names)

-- newOrder, from the pruned snapshot on. `drawn` are the answers of randomID.
unfoldable pub add_order :
    ℕ → Disk → Server → Text → Text → List Identifier → List Text → Server × Reply
unfolding prune commit outstanding get text_discrete with_order make_authorizations
add_order now disk s account_id source identifiers drawn =
    let next = prune now s.activity s.state in
    if is_over_limit account_id (length identifiers) next
    then (s, limited (retry_after order_lifetime))
    else (elim drawn [
      | [] ↦ (s, internal_error)
      | id ∷ others ↦
          let o = fresh_order now account_id identifiers id in
          (elim (make_authorizations o identifiers others) [
            | none ↦ (s, internal_error)
            | some auths ↦
                committed (commit now disk s (with_order now source o auths next))
                  (created_order (record o { auth_ids = auth_ids_of auths }))
          ])
    ])

abbrev pub limited_order :
    ℕ → Disk → Server → Text → Text → List Identifier → List Text → Option Reply → Server × Reply
limited_order now disk s account_id source identifiers drawn (some reply) = (s, reply)
limited_order now disk s account_id source identifiers drawn none =
    add_order now disk s account_id source identifiers drawn

-- The identifiers of a request, and whether it asks for a validity of its own.
pub record OrderInput : Type 0 where
  pub identifiers : List Identifier
  pub has_dates : Bool

abbrev pub is_malformed : Option OrderInput → Bool
is_malformed none = true
is_malformed (some input) =
    length input.identifiers == 0 || ltb max_identifiers (length input.identifiers)

abbrev pub checked_input : Site → Option OrderInput → Result Problem (List Identifier)
checked_input site none = err (record { status = 400; kind = bytes "malformed" })
checked_input site (some input) = do
  fail_if (is_malformed (some input)) (record { status = 400; kind = bytes "malformed" })
  fail_if input.has_dates rejected
  check_identifiers site [] input.identifiers

-- newOrder.
unfoldable pub new_order :
    Site → ℕ → Disk → Server → Signed → Text → Text → Option OrderInput → List Text → Server × Reply
unfolding check_identifiers active_account allow_creation add_order
new_order site now disk s signed account_id source input drawn = elim (checked_input site input) [
  | err p ↦ (s, problem p)
  | ok identifiers ↦ elim (active_account site.base_url s signed account_id) [
    | none ↦ (s, problem forbidden)
    | some a ↦
        let t = touched now s account_id in
        limited_order now disk t account_id source identifiers drawn
          (refusal (allow_creation quotas now t.state.lease_limits source false))
  ]
]

-- The status that orderView shows.
abbrev pub shown_order : ℕ → Order → Order
shown_order now o =
    if is_open o.status && not (ltb now o.expires)
    then record o { status = OrderStatus.invalid }
    else o

abbrev pub own_order : Text → Option Order → Option Order
own_order account_id none = none
own_order account_id (some o) = if text_eq o.account_id account_id then some o else none

abbrev pub own_authorization : Text → Option Authorization → Option Authorization
own_authorization account_id none = none
own_authorization account_id (some a) = if text_eq a.account_id account_id then some a else none

-- getOrder, for an empty payload.
unfoldable pub get_order : Site → ℕ → Server → Signed → Text → Text → Server × Reply
unfolding active_account get text_discrete
get_order site now s signed account_id id =
    elim (active_account site.base_url s signed account_id) [
      | none ↦ (s, problem forbidden)
      | some a ↦
          let t = touched now s account_id in
          (elim (own_order account_id (get text_discrete id s.state.orders)) [
            | none ↦ (t, failure 404 (bytes "malformed"))
            | some o ↦ (t, found_order (shown_order now o))
          ])
    ]

-- The status that authorizationView shows.
abbrev pub shown_authorization : ℕ → Authorization → Authorization
shown_authorization now a = elim a.status [
  | AuthorizationStatus.pending ↦
      if ltb now a.expires then a else record a { status = AuthorizationStatus.expired }
  | AuthorizationStatus.valid ↦
      if ltb now a.expires then a else record a { status = AuthorizationStatus.expired }
  | _ ↦ a
]

-- What a request to an authorization holds: nothing, the wish to deactivate, or anything else.
pub data AuthorizationInput : Type 0 where
  empty deactivate unsupported : AuthorizationInput

abbrev pub deactivated : Authorization → Authorization
deactivated a = record a {
  status = AuthorizationStatus.deactivated;
  challenge_status =
      if is_processing a.challenge_status then ChallengeStatus.invalid else a.challenge_status;
}

-- An order that is not finished yet fails with its authorization.
abbrev pub fail_open : Order → State → State
fail_open o st =
    if is_open o.status
    then put_order o.id (record o { status = OrderStatus.invalid; error = some forbidden }) st
    else st

unfoldable pub deactivate_authorization : Text → Authorization → State → State
unfolding get put text_discrete
deactivate_authorization id a st =
    fail_open (order_of st a.order_id) (put_authorization id (deactivated a) st)

-- The part of getAuthorization behind the lookup of the authorization.
unfoldable pub answer_authorization :
    ℕ → Disk → Server → Text → Authorization → AuthorizationInput → Server × Reply
unfolding deactivate_authorization commit
answer_authorization now disk s id a empty = (s, found_authorization (shown_authorization now a))
answer_authorization now disk s id a unsupported = (s, failure 400 (bytes "malformed"))
answer_authorization now disk s id a deactivate =
    committed (commit now disk s (deactivate_authorization id a s.state))
      (found_authorization (shown_authorization now (deactivated a)))

-- getAuthorization.
unfoldable pub get_authorization :
    Site → ℕ → Disk → Server → Signed → Text → Text → AuthorizationInput → Server × Reply
unfolding active_account get text_discrete answer_authorization
get_authorization site now disk s signed account_id id input =
    elim (active_account site.base_url s signed account_id) [
      | none ↦ (s, problem forbidden)
      | some account ↦
          let t = touched now s account_id in
          (elim (own_authorization account_id (get text_discrete id s.state.authorizations)) [
            | none ↦ (t, failure 404 (bytes "malformed"))
            | some a ↦ answer_authorization now disk t id a input
          ])
    ]

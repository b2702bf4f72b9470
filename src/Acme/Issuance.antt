-- ===== src/Acme/Issuance.antt =====
-- internal/acmeserver/orders.go: finalize and getCertificate.
use infrastructure_in_a_box.Prelude.{
  ℕ, Bool, false, ◌&&◌, ◌||◌, not, List, [], ◌∷◌, Option, none, some, if◌then◌else◌, ltb, leb,
  length,
}
use infrastructure_in_a_box.Prelude.Text.{Text, bytes, text_discrete, text_eq}
use infrastructure_in_a_box.Prelude.Table.{get, put}
use infrastructure_in_a_box.Lease.Address.{addr_discrete, addr_eq}
use infrastructure_in_a_box.Acme.Limits.{quotas}
use infrastructure_in_a_box.Acme.State.{
  OrderStatus, Target, Order, Authorization, Certificate, State, Server, authorization_of,
  put_order, is_ready, is_issued, is_proven,
}
use infrastructure_in_a_box.Acme.Store.{Disk, commit}
use infrastructure_in_a_box.Acme.Accounts.{
  Signed, Reply, problem, internal_error, issued_order, certificate_chain, failure, forbidden,
  touched, committed, active_account,
}
use infrastructure_in_a_box.Acme.Orders.{Site, own_order, shown_order}

-- What ca.SignCSR answers: a chain, an error that blames the request, or another error.
pub data SignResult : Type 0 where
  chain : Text → SignResult
  bad_request failed : SignResult

-- What is read of a certificate: `has_others` tells of names that are no DNS names, `thumbprint`
-- is that of its key, where it has one.
pub record Leaf : Type 0 where
  pub raw : Text
  pub serial : Text
  pub not_after : ℕ
  pub dns_names : List Text
  pub has_others : Bool
  pub thumbprint : Option Text

-- The certificate authority, and the parser of the leaf of a chain.
pub record Authority : Type 0 where
  pub sign : Text → List Text → SignResult
  pub parse_leaf : Text → Option Leaf

-- Whether a name is still in the hands of the client that was validated.
abbrev pub is_target : Target → Option Target → Bool
is_target target none = false
is_target target (some found) =
    addr_eq found.ip target.ip && text_eq found.client_id target.client_id

abbrev pub is_current : Site → ℕ → Authorization → Bool
is_current site now a =
    is_proven a.status && ltb now a.expires && is_target a.target (site.lookup a.name)

abbrev pub named : Text → Option (List Text) → Option (List Text)
named name none = none
named name (some names) = some (name ∷ names)

-- The loop over the authorizations, which stops at the first that does not count any more.
unfoldable pub proven_names : Site → ℕ → State → List Text → Option (List Text)
unfolding get text_discrete addr_discrete
proven_names site now st [] = some []
proven_names site now st (id ∷ ids) =
    let a = authorization_of st id in
    let rest = proven_names site now st ids in
    if is_current site now a then named a.name rest else none

abbrev pub fresh_certificate : Text → Text → Text → Text → Leaf → Certificate
fresh_certificate id account_id order_id pem leaf = record {
  id = id;
  account_id = account_id;
  order_id = order_id;
  pem = pem;
  serial = leaf.serial;
  not_after = leaf.not_after;
  revoked_at = none;
  reason = 0;
}

abbrev pub lapsed_order : Order → Order
lapsed_order o = record o { status = OrderStatus.invalid; error = some forbidden }

abbrev pub with_certificate : Text → Text → Leaf → Order → Order
with_certificate certificate_id csr leaf o = record o {
  status = OrderStatus.valid;
  certificate_id = certificate_id;
  csr = csr;
  expires = leaf.not_after;
}

unfoldable pub lapse : Text → Order → State → State
unfolding put text_discrete
lapse id o st = put_order id (lapsed_order o) st

-- The snapshot with a new certificate.
unfoldable pub issue : Text → Order → Text → Text → Text → Text → Leaf → State → State
unfolding put text_discrete
issue id o account_id certificate_id csr pem leaf st =
    put_order id (with_certificate certificate_id csr leaf o) (record st {
      certificates =
          put text_discrete certificate_id (fresh_certificate certificate_id account_id id pem leaf)
            st.certificates;
    })

-- finalize, once the names are proven. `drawn` is randomID's answer.
unfoldable pub sign_order :
    Authority
    → ℕ
    → Disk
    → Server
    → Text
    → Text
    → Order
    → Text
    → List Text
    → Option Text
    → Server × Reply
unfolding issue commit
sign_order ca now disk s account_id id o csr names drawn = elim (ca.sign csr names) [
  | bad_request ↦ (s, failure 400 (bytes "badCSR"))
  | failed ↦ (s, internal_error)
  | chain pem ↦ elim (ca.parse_leaf pem) [
    | none ↦ (s, internal_error)
    | some leaf ↦ elim drawn [
      | none ↦ (s, internal_error)
      | some certificate_id ↦
          committed (commit now disk s (issue id o account_id certificate_id csr pem leaf s.state))
            (issued_order (shown_order now (with_certificate certificate_id csr leaf o)))
    ]
  ]
]

unfoldable pub finalize_proven :
    Site → Authority → ℕ → Disk → Server → Text → Text → Order → Text → Option Text → Server × Reply
unfolding lapse commit proven_names sign_order
finalize_proven site ca now disk s account_id id o csr drawn =
    elim (proven_names site now s.state o.auth_ids) [
      | none ↦ committed (commit now disk s (lapse id o s.state)) (problem forbidden)
      | some names ↦ sign_order ca now disk s account_id id o csr names drawn
    ]

-- The order has its certificate already, for the same request.
abbrev pub is_repeated : Text → Order → Bool
is_repeated csr o = is_issued o.status && text_eq o.csr csr

-- finalize. `csr` is the decoded request, none where it was refused.
unfoldable pub finalize :
    Site
    → Authority
    → ℕ
    → Disk
    → Server
    → Signed
    → Text
    → Text
    → Option Text
    → Option Text
    → Server × Reply
unfolding active_account get text_discrete finalize_proven
finalize site ca now disk s signed account_id id csr drawn = elim csr [
  | none ↦ (s, failure 400 (bytes "badCSR"))
  | some request ↦ elim (active_account site.base_url s signed account_id) [
    | none ↦ (s, problem forbidden)
    | some account ↦
        let t = touched now s account_id in
        (elim (own_order account_id (get text_discrete id s.state.orders)) [
          | none ↦ (t, failure 404 (bytes "malformed"))
          | some o ↦
              if is_repeated request o
              then (t, issued_order (shown_order now o))
              else if not (is_ready o.status) || not (ltb now o.expires)
              then (t, failure 403 (bytes "orderNotReady"))
              else if leb quotas.records (length t.state.certificates)
              then (t, failure 429 (bytes "rateLimited"))
              else finalize_proven site ca now disk t account_id id o request drawn
        ])
  ]
]

abbrev pub own_certificate : Text → Option Certificate → Option Certificate
own_certificate account_id none = none
own_certificate account_id (some c) = if text_eq c.account_id account_id then some c else none

-- getCertificate, for an empty payload.
unfoldable pub get_certificate : Site → ℕ → Server → Signed → Text → Text → Server × Reply
unfolding active_account get text_discrete
get_certificate site now s signed account_id id =
    elim (active_account site.base_url s signed account_id) [
      | none ↦ (s, problem forbidden)
      | some account ↦
          let t = touched now s account_id in
          (elim (own_certificate account_id (get text_discrete id s.state.certificates)) [
            | none ↦ (t, failure 404 (bytes "malformed"))
            | some c ↦ (t, certificate_chain c.pem)
          ])
    ]

-- ===== src/Acme/State.antt =====
-- internal/acmeserver/types.go.
use infrastructure_in_a_box.Prelude.{ℕ, Bool, true, false, ◌||◌, List, [], Option, none, some}
use infrastructure_in_a_box.Prelude.Text.{Text, text_discrete}
use infrastructure_in_a_box.Prelude.Table.{Table, get, put}
use infrastructure_in_a_box.Lease.Address.{Addr}
use infrastructure_in_a_box.Acme.Limits.{LeaseLimit}

-- The statuses, which the source keeps as text. `unset` is the empty text of a zero value, which
-- a missing key reads as.
pub data OrderStatus : Type 0 where
  unset pending ready valid invalid : OrderStatus

pub data AuthorizationStatus : Type 0 where
  unset pending valid invalid deactivated expired : AuthorizationStatus

pub data ChallengeStatus : Type 0 where
  unset pending processing valid invalid : ChallengeStatus

pub data AccountStatus : Type 0 where
  unset valid deactivated : AccountStatus

-- acmevalidate.Target: who was validated.
pub record Target : Type 0 where
  pub ip : Addr
  pub client_id : Text

-- failure(status, kind, detail), without the detail.
pub record Problem : Type 0 where
  pub status : ℕ
  pub kind : Text

pub record Identifier : Type 0 where
  pub kind : Text
  pub value : Text

pub record Account : Type 0 where
  pub id : Text
  pub key : Text
  pub thumbprint : Text
  pub status : AccountStatus
  pub contact : List Text
  pub last_active : ℕ
  pub recent_orders : List ℕ

pub record Order : Type 0 where
  pub id : Text
  pub account_id : Text
  pub status : OrderStatus
  pub expires : ℕ
  pub identifiers : List Identifier
  pub auth_ids : List Text
  pub certificate_id : Text
  pub csr : Text
  pub error : Option Problem

pub record Authorization : Type 0 where
  pub id : Text
  pub account_id : Text
  pub order_id : Text
  pub name : Text
  pub status : AuthorizationStatus
  pub expires : ℕ
  pub token : Text
  pub challenge_status : ChallengeStatus
  pub validated : Option ℕ
  pub target : Target
  pub error : Option Problem

pub record Certificate : Type 0 where
  pub id : Text
  pub account_id : Text
  pub order_id : Text
  pub pem : Text
  pub serial : Text
  pub not_after : ℕ
  pub revoked_at : Option ℕ
  pub reason : ℕ

-- The snapshot, without its version, domain and root fingerprint, which never change.
pub record State : Type 0 where
  pub lease_limits : Table Text LeaseLimit
  pub accounts : Table Text Account
  pub orders : Table Text Order
  pub authorizations : Table Text Authorization
  pub certificates : Table Text Certificate
  pub crl : Text
  pub crl_number : ℕ
  pub crl_next_update : ℕ

-- What is in memory, and what the state file holds.
pub record Server : Type 0 where
  pub state : State
  pub activity : Table Text ℕ
  pub stored : State

-- The zero values that a missing key reads as.
abbrev pub no_target : Target
no_target = record { ip = Addr.invalid; client_id = [] }

abbrev pub no_order : Order
no_order = record {
  id = [];
  account_id = [];
  status = OrderStatus.unset;
  expires = 0;
  identifiers = [];
  auth_ids = [];
  certificate_id = [];
  csr = [];
  error = none;
}

abbrev pub no_authorization : Authorization
no_authorization = record {
  id = [];
  account_id = [];
  order_id = [];
  name = [];
  status = AuthorizationStatus.unset;
  expires = 0;
  token = [];
  challenge_status = ChallengeStatus.unset;
  validated = none;
  target = no_target;
  error = none;
}

abbrev pub no_account : Account
no_account = record {
  id = [];
  key = [];
  thumbprint = [];
  status = AccountStatus.unset;
  contact = [];
  last_active = 0;
  recent_orders = [];
}

abbrev pub or_zero {ℓ} : {A : Type ℓ} → A → Option A → A
or_zero zero_value none = zero_value
or_zero zero_value (some a) = a

abbrev pub order_of : State → Text → Order
order_of st id = or_zero no_order (get text_discrete id st.orders)

abbrev pub authorization_of : State → Text → Authorization
authorization_of st id = or_zero no_authorization (get text_discrete id st.authorizations)

abbrev pub put_order : Text → Order → State → State
put_order id o st = record st { orders = put text_discrete id o st.orders }

abbrev pub put_authorization : Text → Authorization → State → State
put_authorization id a st = record st { authorizations = put text_discrete id a st.authorizations }

abbrev pub is_pending : OrderStatus → Bool
is_pending OrderStatus.pending = true
is_pending _ = false

abbrev pub is_ready : OrderStatus → Bool
is_ready OrderStatus.ready = true
is_ready _ = false

abbrev pub is_issued : OrderStatus → Bool
is_issued OrderStatus.valid = true
is_issued _ = false

abbrev pub is_failed : OrderStatus → Bool
is_failed OrderStatus.invalid = true
is_failed _ = false

-- o.Status == "pending" || o.Status == "ready"
abbrev pub is_open : OrderStatus → Bool
is_open s = is_pending s || is_ready s

abbrev pub is_waiting : AuthorizationStatus → Bool
is_waiting AuthorizationStatus.pending = true
is_waiting _ = false

abbrev pub is_proven : AuthorizationStatus → Bool
is_proven AuthorizationStatus.valid = true
is_proven _ = false

abbrev pub is_processing : ChallengeStatus → Bool
is_processing ChallengeStatus.processing = true
is_processing _ = false

abbrev pub is_active : AccountStatus → Bool
is_active AccountStatus.valid = true
is_active _ = false

-- ===== src/Acme/Examples.antt =====
-- Concrete cases of the theorems on the ACME server.
use infrastructure_in_a_box.Prelude.{◌≡◌, refl, true, false, List, [], ◌∷◌, none, some}
use infrastructure_in_a_box.Prelude.Text.{Text, Unicode, bytes}
use infrastructure_in_a_box.Prelude.Text.{trim_space}
use infrastructure_in_a_box.Names.Labels.{valid_dns_name}
use infrastructure_in_a_box.Names.Hostname.{qualify}
use infrastructure_in_a_box.Lease.Address.{Addr}
use infrastructure_in_a_box.Prelude.Table.{get}
use infrastructure_in_a_box.Acme.Limits.{allow_creation}
use infrastructure_in_a_box.Acme.Quota.{Creation}
use infrastructure_in_a_box.Acme.State.{Target, Order, OrderStatus, Server}
use infrastructure_in_a_box.Acme.Store.{lost, renamed, synced}
use infrastructure_in_a_box.Acme.Accounts.{Signed, Reply, AccountInput, new_account}
use infrastructure_in_a_box.Acme.Orders.{Site, OrderInput, new_order}
use infrastructure_in_a_box.Acme.Challenges.{acknowledged, challenge_begin, challenge_finish}
use infrastructure_in_a_box.Acme.Issuance.{Authority, chain, finalize}
use infrastructure_in_a_box.Acme.Revocation.{Signer}
use infrastructure_in_a_box.Acme.Keeping.{IsIntact}
use infrastructure_in_a_box.Acme.Certifying.{IsFresh}
use infrastructure_in_a_box.Acme.Runs.{
  new_server, Reach, here, next, registers, orders, challenges, reachable-IsIntact,
}
use infrastructure_in_a_box.Acme.Settling.{is_running, challenge_finish-stops}

abbrev source : Text
source = bytes "id:01"

-- One account, made at the time 7.
abbrev log : List Creation
log = record { source = source; account = true; made_at = 7 } ∷ []

abbrev plain : Unicode
plain = record { lower = λ s. s; trim = λ s. s }

abbrev host : Target
host = record { ip = Addr.v4 0xc0a80105; client_id = bytes "id:01" }

abbrev site : Site
site = record {
  unicode = plain;
  base_url = bytes "u";
  domain = bytes "lan";
  lookup = λ name. some host;
}

abbrev ca : Authority
ca = record {
  sign = λ csr names. chain (bytes "pem");
  parse_leaf = λ pem. some (record {
    raw = bytes "der";
    serial = bytes "7";
    not_after = 5000;
    dns_names = [];
    has_others = false;
    thumbprint = none;
  });
}

abbrev signer : Signer
signer = record {
  parse_serial = λ s. some 7;
  create = λ entries number. some (bytes "crl");
  parse = λ der. some (record { number = some 1; next_update = 9000; is_signed = true });
}

-- The key on its own, and as the account `a`'s.
abbrev own_key : Signed
own_key = record { key_id = []; key = bytes "k"; thumbprint = bytes "t" }

abbrev account_key : Signed
account_key = record { key_id = bytes "u/account/a"; key = bytes "k"; thumbprint = bytes "t" }

abbrev registration : AccountInput
registration = record { contact = none; bad_contact = none; status = none; only_existing = false }

abbrev registered : Server
registered = (new_account 100 synced new_server own_key source registration (some (bytes "a"))).0

abbrev request : OrderInput
request = record {
  identifiers = record { kind = bytes "dns"; value = bytes "pc.lan" } ∷ [];
  has_dates = false;
}

abbrev drawn : List Text
drawn = bytes "o" ∷ bytes "z" ∷ bytes "w" ∷ []

abbrev ordered : Server
ordered =
    (new_order site 101 synced registered account_key (bytes "a") source (some request) drawn).0

abbrev asked : Server
asked =
    (challenge_begin site 102 renamed ordered account_key (bytes "a") (bytes "z") acknowledged
      true).0

abbrev asked_again : Server
asked_again =
    (challenge_begin site 103 synced asked account_key (bytes "a") (bytes "z") acknowledged true).0

registered-IsFresh : IsFresh drawn registered.state
unfolding new_account get allow_creation
registered-IsFresh = λ x i. (refl, refl)

reached : Reach site ca signer new_server asked_again
reached =
    next
      (next
        (next (next here (registers 100 synced own_key source registration (some (bytes "a")))) (
          orders 101 synced account_key (bytes "a") source (some request) drawn registered-IsFresh))
        (challenges 102 renamed account_key (bytes "a") (bytes "z") acknowledged true))
      (challenges 103 synced account_key (bytes "a") (bytes "z") acknowledged true)

reachable-IsIntact_example : IsIntact asked_again
reachable-IsIntact_example = reachable-IsIntact site ca signer asked_again reached

-- The challenge of the example runs.
asked_again-runs : is_running asked_again.state (bytes "z") ≡ true
unfolding new_account new_order challenge_begin valid_dns_name trim_space qualify
asked_again-runs = refl

challenge_finish-stops_example :
    is_running
      (challenge_finish site 104 lost asked_again account_key
        (bytes "a")
        (bytes "z")
        (some host)).0.state
      (bytes "z")
    ≡ false
challenge_finish-stops_example =
    challenge_finish-stops site 104 lost asked_again account_key (bytes "a") (bytes "z") (some host)
      (reachable-IsIntact site ca signer asked_again reached)

-- The order of the example, once it has its certificate.
abbrev concluded : Server
concluded =
    (challenge_finish site 104 synced asked_again account_key (bytes "a") (bytes "z") (some host)).0

abbrev issued : Order
issued = record {
  id = bytes "o";
  account_id = bytes "a";
  status = OrderStatus.valid;
  expires = 5000;
  identifiers = record { kind = bytes "dns"; value = bytes "pc.lan" } ∷ [];
  auth_ids = bytes "z" ∷ [];
  certificate_id = bytes "c";
  csr = bytes "csr";
  error = none;
}

abbrev finished : Server × Reply
finished =
    finalize site ca 105 synced concluded account_key (bytes "a") (bytes "o") (some (bytes "csr"))
      (some (bytes "c"))

-- ===== src/Acme/Proofs.antt =====
-- internal/acmeserver/orders.go: the names that finalize signs, and what was proven of them.
use infrastructure_in_a_box.Prelude.{ℕ, ◌≡◌, true, some, In, ltb}
use infrastructure_in_a_box.Prelude.Text.{Text, text_discrete}
use infrastructure_in_a_box.Prelude.Table.{get, put}
use infrastructure_in_a_box.Acme.State.{Order, Server, authorization_of, is_ready}
use infrastructure_in_a_box.Acme.Store.{prune}
use infrastructure_in_a_box.Acme.Orders.{Site}
use infrastructure_in_a_box.Acme.Issuance.{Authority, Leaf, chain, issue, is_repeated}
use infrastructure_in_a_box.Acme.Proven.{IsCurrent, names_of}

-- A request that was answered before: the order has its certificate, and the snapshot stays.
pub record IsRepeat (s t : Server) (account_id id csr : Text) : Type 0 where
  pub order : Order
  pub found : get text_discrete id s.state.orders ≡ some order
  pub owned : order.account_id ≡ account_id
  pub repeated : is_repeated csr order ≡ true
  pub unchanged : t.state ≡ s.state

-- A new certificate: who may have it, what it was signed for, and where it is kept.
pub record IsIssue (site : Site) (ca : Authority) (now : ℕ) (s t : Server)
    (account_id id csr : Text) : Type 0 where
  pub order : Order
  pub found : get text_discrete id s.state.orders ≡ some order
  pub owned : order.account_id ≡ account_id
  pub ready : is_ready order.status ≡ true
  pub unexpired : ltb now order.expires ≡ true
  -- Every name counts at the time of the signature.
  pub current : (x : Text) → In x order.auth_ids → IsCurrent site now (authorization_of s.state x)
  pub pem : Text
  -- The names that were signed are theirs, and no others.
  pub signed : ca.sign csr (names_of s.state order.auth_ids) ≡ chain pem
  pub leaf : Leaf
  pub parsed : ca.parse_leaf pem ≡ some leaf
  pub certificate_id : Text
  pub kept :
      t.state
      ≡ prune now
          (put text_discrete account_id now s.activity)
          (issue id order account_id certificate_id csr pem leaf s.state)
  -- The file holds what is in memory.
  pub durable : t.stored ≡ t.state

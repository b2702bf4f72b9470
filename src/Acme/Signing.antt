-- ===== src/Acme/Signing.antt =====
-- internal/acmeserver/orders.go: the steps of finalize that end with a certificate.
use infrastructure_in_a_box.Prelude.{
  ℕ, ◌≡◌, refl, subst, inl, inr, List, Option, none, some, arith, In, Option-cases,
}
use infrastructure_in_a_box.Prelude.Text.{Text, text_discrete}
use infrastructure_in_a_box.Acme.State.{Order, State, Server, Problem, authorization_of}
use infrastructure_in_a_box.Acme.Store.{Disk, lost, renamed, synced, prune, commit}
use infrastructure_in_a_box.Acme.Accounts.{Reply, problem, issued_order, forbidden, committed}
use infrastructure_in_a_box.Acme.Orders.{Site, own_order}
use infrastructure_in_a_box.Acme.Issuance.{
  Authority, Leaf, SignResult, chain, bad_request, failed, proven_names, lapse, issue, sign_order,
  finalize_proven,
}
use infrastructure_in_a_box.Acme.Proven.{IsCurrent, names_of, proven_names-some}

-- `P` holds of the server if an order with a certificate is answered.
abbrev pub IfIssued : (Server → Type 0) → Server × Reply → Type 0
IfIssued P (t, issued_order v) = P t
IfIssued P (t, _) = Unit {0}

-- Where a commit is answered for, the snapshot is pruned and stored.
commit-IfIssued :
    (P : Server → Type 0) (now : ℕ) (disk : Disk) (s : Server) (next : State) (o : Order)
    → ((t : Server) → t.state ≡ prune now s.activity next → t.stored ≡ t.state → P t)
    → IfIssued P (committed (commit now disk s next) (issued_order o))
unfolding commit
commit-IfIssued P now lost s next o h = tt
commit-IfIssued P now renamed s next o h = tt
commit-IfIssued P now synced s next o h = h _ refl refl

commit-problem :
    (P : Server → Type 0) (now : ℕ) (disk : Disk) (s : Server) (next : State) (p : Problem)
    → IfIssued P (committed (commit now disk s next) (problem p))
unfolding commit
commit-problem P now lost s next p = tt
commit-problem P now renamed s next p = tt
commit-problem P now synced s next p = tt

pub own_order-IsOwn :
    (account_id : Text) (m : Option Order) (o : Order)
    → own_order account_id m ≡ some o
    → (m ≡ some o) × (o.account_id ≡ account_id)
unfolding text_discrete
own_order-IsOwn account_id none o e = cc
own_order-IsOwn account_id (some p) o e = ground arith

-- A finding of the signing steps that are left, before the order is known.
pub record IsSigned (ca : Authority) (now : ℕ) (s t : Server) (account_id id : Text) (o : Order)
    (csr : Text) (names : List Text) : Type 0 where
  pub pem : Text
  pub signed : ca.sign csr names ≡ chain pem
  pub leaf : Leaf
  pub parsed : ca.parse_leaf pem ≡ some leaf
  pub certificate_id : Text
  pub kept :
      t.state ≡ prune now s.activity (issue id o account_id certificate_id csr pem leaf s.state)
  pub durable : t.stored ≡ t.state

sign_order-IsSigned :
    (P : Server → Type 0) (ca : Authority) (now : ℕ) (disk : Disk) (s : Server)
    (account_id id : Text) (o : Order) (csr : Text) (names : List Text) (drawn : Option Text)
    → ((t : Server) → IsSigned ca now s t account_id id o csr names → P t)
    → IfIssued P (sign_order ca now disk s account_id id o csr names drawn)
unfolding sign_order
sign_order-IsSigned P ca now disk s account_id id o csr names drawn h = go (ca.sign csr names) refl
  where
    go :
        (r : SignResult)
        → ca.sign csr names ≡ r
        → IfIssued P (sign_order ca now disk s account_id id o csr names drawn)
    go bad_request r = rw (r, sign_order) tt
    go failed r = rw (r, sign_order) tt
    go (chain pem) r = elim (Option-cases (ca.parse_leaf pem)) [
      | inl bad ↦ rw (r, bad, sign_order) tt
      | inr (leaf, parsed) ↦ elim (Option-cases drawn) [
        | inl out ↦ rw (r, parsed, out, sign_order) tt
        | inr (certificate_id, d) ↦
            rw (r, parsed, d, sign_order)
              (commit-IfIssued P now disk s
                (issue id o account_id certificate_id csr pem leaf s.state) _
                (λ t kept durable. h t (record {
                  pem = pem;
                  signed = r;
                  leaf = leaf;
                  parsed = parsed;
                  certificate_id = certificate_id;
                  kept = kept;
                  durable = durable;
                })))
      ]
    ]

pub finalize_proven-IsSigned :
    (P : Server → Type 0) (site : Site) (ca : Authority) (now : ℕ) (disk : Disk) (s : Server)
    (account_id id : Text) (o : Order) (csr : Text) (drawn : Option Text)
    → ((t : Server)
        → ((x : Text) → In x o.auth_ids → IsCurrent site now (authorization_of s.state x))
        → IsSigned ca now s t account_id id o csr (names_of s.state o.auth_ids)
        → P t)
    → IfIssued P (finalize_proven site ca now disk s account_id id o csr drawn)
unfolding finalize_proven
finalize_proven-IsSigned P site ca now disk s account_id id o csr drawn h =
    elim (Option-cases (proven_names site now s.state o.auth_ids)) [
      | inl lapsed ↦
          rw (lapsed, finalize_proven) (commit-problem P now disk s (lapse id o s.state) forbidden)
      | inr (names, good) ↦
          let (same, current) = proven_names-some site now s.state o.auth_ids names good in
          rw (good, finalize_proven)
            (sign_order-IsSigned P ca now disk s account_id id o csr names drawn (λ t signed.
              h t current (subst (IsSigned ca now s t account_id id o csr) same signed)))
    ]

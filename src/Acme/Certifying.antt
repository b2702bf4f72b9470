-- ===== src/Acme/Certifying.antt =====
-- The handlers of new orders and certificates keep the ACME server intact.
use infrastructure_in_a_box.Prelude.{
  ℕ, ◌≡◌, refl, inl, inr, false, ◌||◌, not, List, [], ◌∷◌, Option, none, some, In, Bool-cases,
  Option-cases, length, leb, ltb,
}
use infrastructure_in_a_box.Prelude.Results.{Result, ok, err}
use infrastructure_in_a_box.Prelude.Text.{Text, text_discrete}
use infrastructure_in_a_box.Prelude.Table.{get}
use infrastructure_in_a_box.Acme.State.{
  Problem, Order, Authorization, Identifier, State, Server, is_ready,
}
use infrastructure_in_a_box.Acme.Limits.{quotas}
use infrastructure_in_a_box.Acme.Store.{Disk, prune}
use infrastructure_in_a_box.Acme.Accounts.{Signed, Reply, touched, active_account}
use infrastructure_in_a_box.Acme.Orders.{
  Site, OrderInput, own_order, checked_input, fresh_order, make_authorizations, is_over_limit,
  add_order, limited_order, new_order,
}
use infrastructure_in_a_box.Acme.Issuance.{
  Authority, SignResult, chain, bad_request, failed, is_repeated, proven_names, sign_order,
  finalize_proven, finalize,
}
use infrastructure_in_a_box.Acme.Invariant.{IsSound}
use infrastructure_in_a_box.Acme.Pruning.{
  prune-IsSound, prune-absent_order, prune-absent_authorization,
}
use infrastructure_in_a_box.Acme.Ordering.{
  IsMade, IsNew, make_authorizations-IsMade, with_order-IsSound,
}
use infrastructure_in_a_box.Acme.Effects.{lapse-IsSound, issue-IsSound}
use infrastructure_in_a_box.Acme.Keeping.{
  IsIntact, touched-IsIntact, commit-IsIntact, committed-IsIntact,
}
use infrastructure_in_a_box.Acme.Handling.{own_order-some}

-- What randomID promises: its answers are no keys yet.
abbrev pub IsFresh : List Text → State → Type 0
IsFresh drawn s =
    (x : Text)
    → In x drawn
    → (get text_discrete x s.orders ≡ none) × (get text_discrete x s.authorizations ≡ none)

-- The order that newOrder prepares is new to the pruned snapshot.
fresh-IsNew :
    (now : ℕ) (s : Server) (account_id id : Text) (identifiers : List Identifier)
    (others : List Text) (auths : List Authorization)
    → IsSound s.state
    → IsFresh (id ∷ others) s.state
    → make_authorizations (fresh_order now account_id identifiers id) identifiers others
      ≡ some auths
    → IsNew (prune now s.activity s.state) (fresh_order now account_id identifiers id) auths
fresh-IsNew now s account_id id identifiers others auths h fresh made = record {
  order = prune-absent_order now s.activity s.state h id (fresh id (inl refl)).0;
  unready = refl;
  authorization = λ a i.
      prune-absent_authorization now s.activity s.state a.id (fresh a.id (inr (is_made a i).id)).1;
  order_id = λ a i. (is_made a i).order_id;
  account_id = λ a i. (is_made a i).account_id;
  consistent = λ a i. (is_made a i).consistent;
}
  where
    is_made :
        (a : Authorization)
        → In a auths
        → IsMade (fresh_order now account_id identifiers id) others a
    is_made =
        make_authorizations-IsMade (fresh_order now account_id identifiers id) identifiers others
          auths made

add_order-IsIntact :
    (now : ℕ) (disk : Disk) (s : Server) (account_id source : Text) (identifiers : List Identifier)
    (drawn : List Text)
    → IsIntact s
    → IsFresh drawn s.state
    → IsIntact (add_order now disk s account_id source identifiers drawn).0
unfolding add_order
add_order-IsIntact now disk s account_id source identifiers drawn h fresh =
    elim (Bool-cases
      (is_over_limit account_id (length identifiers) (prune now s.activity s.state))) [
        | inl over ↦ rw (over, add_order) h
        | inr below ↦ go drawn fresh below
      ]
  where
    go :
        (drawn : List Text)
        → IsFresh drawn s.state
        → is_over_limit account_id (length identifiers) (prune now s.activity s.state) ≡ false
        → IsIntact (add_order now disk s account_id source identifiers drawn).0
    go [] fresh below = rw (below, add_order) h
    go (id ∷ others) fresh below =
        elim (Option-cases
          (make_authorizations (fresh_order now account_id identifiers id) identifiers others)) [
            | inl out ↦ rw (below, out, add_order) h
            | inr (auths, made) ↦
                rw (below, made, add_order)
                  (committed-IsIntact _ _ (
                    commit-IsIntact now disk s _ h (
                      with_order-IsSound now source _ auths _
                        (prune-IsSound now s.activity s.state h.sound)
                        (fresh-IsNew now s account_id id identifiers others auths h.sound fresh
                          made))))
          ]

limited_order-IsIntact :
    (now : ℕ) (disk : Disk) (s : Server) (account_id source : Text) (identifiers : List Identifier)
    (drawn : List Text) (refused : Option Reply)
    → IsIntact s
    → IsFresh drawn s.state
    → IsIntact (limited_order now disk s account_id source identifiers drawn refused).0
limited_order-IsIntact now disk s account_id source identifiers drawn (some reply) h fresh = h
limited_order-IsIntact now disk s account_id source identifiers drawn none h fresh =
    add_order-IsIntact now disk s account_id source identifiers drawn h fresh

pub new_order-IsIntact :
    (site : Site) (now : ℕ) (disk : Disk) (s : Server) (signed : Signed) (account_id source : Text)
    (input : Option OrderInput) (drawn : List Text)
    → IsIntact s
    → IsFresh drawn s.state
    → IsIntact (new_order site now disk s signed account_id source input drawn).0
unfolding new_order
new_order-IsIntact site now disk s signed account_id source input drawn h fresh =
    go (checked_input site input) refl
  where
    go :
        (r : Result Problem (List Identifier))
        → checked_input site input ≡ r
        → IsIntact (new_order site now disk s signed account_id source input drawn).0
    go (err p) e = rw (e, new_order) h
    go (ok identifiers) e = elim (Option-cases (active_account site.base_url s signed account_id)) [
      | inl out ↦ rw (e, out, new_order) h
      | inr (a, active) ↦
          rw (e, active, new_order)
            (limited_order-IsIntact now disk (touched now s account_id) account_id source
              identifiers drawn _ (touched-IsIntact now s account_id h) fresh)
    ]

sign_order-IsIntact :
    (ca : Authority) (now : ℕ) (disk : Disk) (s : Server) (account_id id : Text) (o : Order)
    (csr : Text) (names : List Text) (drawn : Option Text)
    → IsIntact s
    → get text_discrete id s.state.orders ≡ some o
    → IsIntact (sign_order ca now disk s account_id id o csr names drawn).0
unfolding sign_order
sign_order-IsIntact ca now disk s account_id id o csr names drawn h found =
    go (ca.sign csr names) refl
  where
    go :
        (r : SignResult)
        → ca.sign csr names ≡ r
        → IsIntact (sign_order ca now disk s account_id id o csr names drawn).0
    go bad_request e = rw (e, sign_order) h
    go failed e = rw (e, sign_order) h
    go (chain pem) e = elim (Option-cases (ca.parse_leaf pem)) [
      | inl bad ↦ rw (e, bad, sign_order) h
      | inr (leaf, parsed) ↦ elim (Option-cases drawn) [
        | inl out ↦ rw (e, parsed, out, sign_order) h
        | inr (certificate_id, d) ↦
            rw (e, parsed, d, sign_order)
              (committed-IsIntact _ _ (
                commit-IsIntact now disk s _ h (
                  issue-IsSound id o account_id certificate_id csr pem leaf s.state h.sound found)))
      ]
    ]

finalize_proven-IsIntact :
    (site : Site) (ca : Authority) (now : ℕ) (disk : Disk) (s : Server) (account_id id : Text)
    (o : Order) (csr : Text) (drawn : Option Text)
    → IsIntact s
    → get text_discrete id s.state.orders ≡ some o
    → IsIntact (finalize_proven site ca now disk s account_id id o csr drawn).0
unfolding finalize_proven
finalize_proven-IsIntact site ca now disk s account_id id o csr drawn h found =
    elim (Option-cases (proven_names site now s.state o.auth_ids)) [
      | inl lapsed ↦
          rw (lapsed, finalize_proven)
            (committed-IsIntact _ _
              (commit-IsIntact now disk s _ h (lapse-IsSound id o s.state h.sound found)))
      | inr (names, good) ↦
          rw (good, finalize_proven)
            (sign_order-IsIntact ca now disk s account_id id o csr names drawn h found)
    ]

pub finalize-IsIntact :
    (site : Site) (ca : Authority) (now : ℕ) (disk : Disk) (s : Server) (signed : Signed)
    (account_id id : Text) (csr drawn : Option Text)
    → IsIntact s
    → IsIntact (finalize site ca now disk s signed account_id id csr drawn).0
unfolding finalize
finalize-IsIntact site ca now disk s signed account_id id none drawn h = h
finalize-IsIntact site ca now disk s signed account_id id (some csr) drawn h =
    elim (Option-cases (active_account site.base_url s signed account_id)) [
      | inl out ↦ rw (out, finalize) h
      | inr (a, active) ↦
          elim (Option-cases (own_order account_id (get text_discrete id s.state.orders))) [
            | inl missing ↦ rw (active, missing, finalize) here
            | inr (o, own) ↦ elim (Bool-cases (is_repeated csr o)) [
              | inl again ↦ rw (active, own, again, finalize) here
              | inr first ↦ elim (Bool-cases (not (is_ready o.status) || not (ltb now o.expires))) [
                | inl early ↦ rw (active, own, first, early, finalize) here
                | inr ready ↦ elim (Bool-cases (leb quotas.records (length s.state.certificates))) [
                  | inl full ↦ rw (active, own, first, ready, full, finalize) here
                  | inr room ↦
                      rw (active, own, first, ready, room, finalize)
                        (finalize_proven-IsIntact site ca now disk (touched now s account_id)
                          account_id id o csr drawn here (own_order-some account_id _ o own))
                ]
              ]
            ]
          ]
    ]
  where
    here : IsIntact (touched now s account_id)
    here = touched-IsIntact now s account_id h

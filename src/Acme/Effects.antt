-- ===== src/Acme/Effects.antt =====
-- internal/acmeserver: the snapshots that the handlers prepare for a commit, and the invariant.
use infrastructure_in_a_box.Prelude.{
  ℕ, ◌≡◌, refl, sym, ◌∙◌, subst, ap, inl, inr, true, false, List, [], ◌∷◌, some, arith, In,
  Bool-cases, &&-true,
}
use infrastructure_in_a_box.Prelude.Text.{Text, text_discrete}
use infrastructure_in_a_box.Prelude.Table.{Table, get, update_all}
use infrastructure_in_a_box.Acme.State.{
  Target, Order, OrderStatus, Authorization, Account, State, no_order, or_zero, order_of,
  authorization_of, put_order, put_authorization, is_ready, is_proven, is_pending, is_open,
}
use infrastructure_in_a_box.Acme.Store.{recovered, recover}
use infrastructure_in_a_box.Acme.Accounts.{update_account, is_deactivated, forbidden}
use infrastructure_in_a_box.Acme.Orders.{deactivated, deactivate_authorization}
use infrastructure_in_a_box.Acme.Challenges.{
  failed_authorization, failed_order, proven, are_proven, readied, failed_proof, passed_proof,
}
use infrastructure_in_a_box.Acme.Issuance.{Leaf, lapse, issue, lapsed_order, with_certificate}
use infrastructure_in_a_box.Acme.Invariant.{IsConsistent, IsSound, SameOrder, same_order}
use infrastructure_in_a_box.Acme.Changes.{
  put_pair-IsSound, put_unready-IsSound, put_order-IsSound, same_tables-IsSound,
}
use infrastructure_in_a_box.Acme.Rewrites.{
  recovered-SameAuthorization, recovered-proven, recovered-IsConsistent, rewritten-IsSound,
  closed-IsSound,
}

update_all-id : {K V : Type 0} (m : Table K V) → update_all (λ v. v) m ≡ m
unfolding update_all
update_all-id [] = refl
update_all-id ((k, v) ∷ m) = ap (◌∷◌ (k, v)) (update_all-id m)

pub recover-IsSound : (s : State) → IsSound s → IsSound (recover s)
unfolding recover
recover-IsSound s h = same_tables-IsSound (recover s) (sym (update_all-id s.orders)) refl (
    rewritten-IsSound (λ o. o) recovered s h same_order recovered-SameAuthorization (λ o r. r)
      recovered-proven recovered-IsConsistent)

pub update_account-IsSound :
    (id : Text) (a : Account) (s : State) → IsSound s → IsSound (update_account id a s)
unfolding update_account
update_account-IsSound id a s h = elim (Bool-cases (is_deactivated a.status)) [
  | inl over ↦ rw over (closed-IsSound id _ (same_tables-IsSound _ refl refl h))
  | inr live ↦ rw live (same_tables-IsSound _ refl refl h)
]

failed_authorization-IsConsistent : (a : Authorization) → IsConsistent (failed_authorization a)
failed_authorization-IsConsistent a = ground arith

deactivated-IsConsistent : (a : Authorization) → IsConsistent (deactivated a)
deactivated-IsConsistent a = ground arith

proven-IsConsistent :
    (now : ℕ) (target : Target) (a : Authorization) → IsConsistent (proven now target a)
proven-IsConsistent now target a = ground arith

is_open-unready : (o : Order) → is_open o.status ≡ false → is_ready o.status ≡ false
is_open-unready o e = ground arith

-- The order of an authorization, as the handlers read it.
order_of-some :
    {s : State}
    → IsSound s
    → (x : Text) (a : Authorization) → get text_discrete x s.authorizations ≡ some a
    → (get text_discrete a.order_id s.orders ≡ some (order_of s a.order_id))
      × ((order_of s a.order_id).id ≡ a.order_id)
order_of-some {s} h x a found =
    let (o, there, _) = h.attached x a found in
    let e : order_of s a.order_id ≡ o = ap (or_zero no_order) there in
    (there ∙ ap some (sym e), ap (λ o. o.id) e ∙ h.order_key a.order_id o there)

pub failed_proof-IsSound :
    (x : Text) (a : Authorization) (s : State)
    → IsSound s
    → get text_discrete x s.authorizations ≡ some a
    → IsSound (failed_proof x a s)
unfolding failed_proof
failed_proof-IsSound x a s h found =
    let (there, key) = order_of-some h x a found in
    subst
      (λ k. IsSound (
        put_order k (failed_order (order_of s a.order_id))
          (put_authorization x (failed_authorization a) s)))
      (sym key)
      (put_pair-IsSound x (failed_authorization a) (failed_order (order_of s a.order_id)) h found
        there (record { id = refl; account_id = refl; order_id = refl })
        (record { id = refl; account_id = refl; auth_ids = refl })
        (failed_authorization-IsConsistent a) (λ r. cc))

are_proven-In :
    (ids : List Text) (s : State) (y : Text)
    → are_proven ids s ≡ true
    → In y ids
    → is_proven (authorization_of s y).status ≡ true
unfolding are_proven
are_proven-In [] s y p i = absurd i
are_proven-In (x ∷ ids) s y p (inl e) =
    subst (λ y. is_proven (authorization_of s y).status ≡ true) e (&&-true _ _ p).0
are_proven-In (x ∷ ids) s y p (inr i) = are_proven-In ids s y (&&-true _ _ p).1 i

readied-SameOrder : (s : State) (o : Order) → SameOrder o (readied s o)
readied-SameOrder s o = ground arith

-- An order that the source makes ready has all its authorizations proven.
readied-ready :
    (s : State) (o : Order)
    → is_pending o.status ≡ true
    → is_ready (readied s o).status ≡ true
    → are_proven o.auth_ids s ≡ true
readied-ready s o p r = ground arith

pub passed_proof-IsSound :
    (now : ℕ) (target : Target) (x : Text) (a : Authorization) (s : State)
    → IsSound s
    → get text_discrete x s.authorizations ≡ some a
    → is_pending (order_of s a.order_id).status ≡ true
    → IsSound (passed_proof now target x a s)
unfolding passed_proof
passed_proof-IsSound now target x a s h found pending =
    subst (λ k. IsSound (put_order k p next)) (sym (same.id ∙ key))
      (put_pair-IsSound x (proven now target a) p h found there
        (record { id = refl; account_id = refl; order_id = refl }) same
        (proven-IsConsistent now target a)
        (λ r y i.
          are_proven-In o.auth_ids next y (readied-ready next o pending r)
            (subst (λ l. In y l) same.auth_ids i)))
  where
    o : Order
    o = order_of s a.order_id

    next : State
    next = put_authorization x (proven now target a) s

    p : Order
    p = readied next o

    same : SameOrder o p
    same = readied-SameOrder next o

    there : get text_discrete a.order_id s.orders ≡ some o
    there = (order_of-some h x a found).0

    key : o.id ≡ a.order_id
    key = (order_of-some h x a found).1

pub deactivate_authorization-IsSound :
    (x : Text) (a : Authorization) (s : State)
    → IsSound s
    → get text_discrete x s.authorizations ≡ some a
    → IsSound (deactivate_authorization x a s)
unfolding deactivate_authorization
deactivate_authorization-IsSound x a s h found = elim (Bool-cases (is_open o.status)) [
  | inl live ↦ rw live (
      subst (λ k. IsSound (put_order k p (put_authorization x (deactivated a) s)))
        (sym (order_of-some h x a found).1)
        (put_pair-IsSound x (deactivated a) p h found (order_of-some h x a found).0
          (record { id = refl; account_id = refl; order_id = refl })
          (record { id = refl; account_id = refl; auth_ids = refl }) (deactivated-IsConsistent a)
          (λ r. cc)))
  | inr over ↦ rw over (
      put_unready-IsSound x (deactivated a) h found
        (record { id = refl; account_id = refl; order_id = refl }) (deactivated-IsConsistent a)
        (λ q there.
          is_open-unready q (ap (λ m. is_open (or_zero no_order m).status) (sym there) ∙ over)))
]
  where
    o : Order
    o = order_of s a.order_id

    p : Order
    p = record o { status = OrderStatus.invalid; error = some forbidden }

pub lapse-IsSound :
    (k : Text) (o : Order) (s : State)
    → IsSound s
    → get text_discrete k s.orders ≡ some o
    → IsSound (lapse k o s)
unfolding lapse
lapse-IsSound k o s h found =
    put_order-IsSound k (lapsed_order o) h found
      (record { id = refl; account_id = refl; auth_ids = refl }) refl

pub issue-IsSound :
    (k : Text) (o : Order) (account_id certificate_id csr pem : Text) (leaf : Leaf) (s : State)
    → IsSound s
    → get text_discrete k s.orders ≡ some o
    → IsSound (issue k o account_id certificate_id csr pem leaf s)
unfolding issue
issue-IsSound k o account_id certificate_id csr pem leaf s h found =
    put_order-IsSound k (with_certificate certificate_id csr leaf o)
      (same_tables-IsSound _ refl refl h) found
      (record { id = refl; account_id = refl; auth_ids = refl }) refl

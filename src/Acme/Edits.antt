-- ===== src/Acme/Edits.antt =====
-- internal/acmeserver: edits of one order or one authorization in a snapshot, and their composition.
use infrastructure_in_a_box.Prelude.{
  ◌≡◌, sym, ◌∙◌, subst, ap, ◌≢◌, ◌⊎◌, inl, inr, true, false, some,
}
use infrastructure_in_a_box.Prelude.Text.{Text, text_discrete}
use infrastructure_in_a_box.Prelude.Table.{
  Table, get, put, IsMap, put-IsMap, put-from, put_same, put_other,
}
use infrastructure_in_a_box.Acme.State.{Order, Authorization, State, put_order, put_authorization}
use infrastructure_in_a_box.Acme.Invariant.{
  SameOrder, SameAuthorization, IsEdit, same_order, same_authorization,
}

pub IsEdit-trans : {s t u : State} → IsEdit s t → IsEdit t u → IsEdit s u
IsEdit-trans e f = record {
  orders_map = f.orders_map;
  authorizations_map = f.authorizations_map;
  order_from = λ k p found.
      (let (o, before, same) = f.order_from k p found in
        let (n, first, alike) = e.order_from k o before in
        (
          n,
          first,
          record {
            id = same.id ∙ alike.id;
            account_id = same.account_id ∙ alike.account_id;
            auth_ids = same.auth_ids ∙ alike.auth_ids;
          },
        ));
  order_to = λ k n found.
      (let (o, later, alike) = e.order_to k n found in
        let (p, last, same) = f.order_to k o later in
        (
          p,
          last,
          record {
            id = same.id ∙ alike.id;
            account_id = same.account_id ∙ alike.account_id;
            auth_ids = same.auth_ids ∙ alike.auth_ids;
          },
        ));
  authorization_from = λ x c found.
      (let (b, before, same) = f.authorization_from x c found in
        let (a, first, alike) = e.authorization_from x b before in
        (
          a,
          first,
          record {
            id = same.id ∙ alike.id;
            account_id = same.account_id ∙ alike.account_id;
            order_id = same.order_id ∙ alike.order_id;
          },
        ));
  authorization_to = λ x a found.
      (let (b, later, alike) = e.authorization_to x a found in
        let (c, last, same) = f.authorization_to x b later in
        (
          c,
          last,
          record {
            id = same.id ∙ alike.id;
            account_id = same.account_id ∙ alike.account_id;
            order_id = same.order_id ∙ alike.order_id;
          },
        ));
}

-- What an assignment to one key leaves of the entries.
put-kept :
    {V : Type 0} (k j : Text) (v w : V) (m : Table Text V)
    → get text_discrete j m ≡ some w
    → ((k ≡ j) × (get text_discrete j (put text_discrete k v m) ≡ some v))
      ⊎ (get text_discrete j (put text_discrete k v m) ≡ some w)
put-kept k j v w m found = elim (text_discrete k j) [
  | yes e ↦ inl (
    e,
    subst (λ j. get text_discrete j (put text_discrete k v m) ≡ some v) e
        (put_same text_discrete k v m),
  )
  | no n ↦ inr (put_other text_discrete k j v m n ∙ found)
]

pub true≢false : true ≢ false
true≢false e = cc

pub one_value :
    {V : Type 0} (k j : Text) (v w : V) (m : Table Text V)
    → k ≡ j
    → get text_discrete k m ≡ some v
    → get text_discrete j m ≡ some w
    → v ≡ w
one_value k j v w m e f g = cc

pub put_order-IsEdit :
    {s : State} (k : Text) {o : Order} (p : Order)
    → IsMap text_discrete s.orders
    → IsMap text_discrete s.authorizations
    → get text_discrete k s.orders ≡ some o
    → SameOrder o p
    → IsEdit s (put_order k p s)
put_order-IsEdit {s} k {o} p om am found same = record {
  orders_map = put-IsMap text_discrete k p s.orders om;
  authorizations_map = am;
  order_from = λ j q here. elim (put-from text_discrete k j p q s.orders here) [
    | inl (e, new) ↦ (
      o,
      sym (ap (λ j. get text_discrete j s.orders) e) ∙ found,
      subst (SameOrder o) (sym new) same,
    )
    | inr (n, old) ↦ (q, old, same_order q)
  ];
  order_to = λ j q here. elim (put-kept k j p q s.orders here) [
    | inl (e, new) ↦
        (p, new, subst (λ o. SameOrder o p) (one_value k j o q s.orders e found here) same)
    | inr old ↦ (q, old, same_order q)
  ];
  authorization_from = λ x a here. (a, here, same_authorization a);
  authorization_to = λ x a here. (a, here, same_authorization a);
}

pub put_authorization-IsEdit :
    {s : State} (x : Text) {a : Authorization} (b : Authorization)
    → IsMap text_discrete s.orders
    → IsMap text_discrete s.authorizations
    → get text_discrete x s.authorizations ≡ some a
    → SameAuthorization a b
    → IsEdit s (put_authorization x b s)
put_authorization-IsEdit {s} x {a} b om am found same = record {
  orders_map = om;
  authorizations_map = put-IsMap text_discrete x b s.authorizations am;
  order_from = λ k o here. (o, here, same_order o);
  order_to = λ k o here. (o, here, same_order o);
  authorization_from = λ y c here. elim (put-from text_discrete x y b c s.authorizations here) [
    | inl (e, new) ↦ (
      a,
      sym (ap (λ y. get text_discrete y s.authorizations) e) ∙ found,
      subst (SameAuthorization a) (sym new) same,
    )
    | inr (n, old) ↦ (c, old, same_authorization c)
  ];
  authorization_to = λ y c here. elim (put-kept x y b c s.authorizations here) [
    | inl (e, new) ↦ (
      b,
      new,
      subst (λ a. SameAuthorization a b) (one_value x y a c s.authorizations e found here) same,
    )
    | inr old ↦ (c, old, same_authorization c)
  ];
}

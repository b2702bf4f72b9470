-- ===== src/Acme/Invariant.antt =====
-- How orders and authorizations belong together in every snapshot of the ACME server, and the
-- edits that keep it.
use infrastructure_in_a_box.Prelude.{◌≡◌, refl, sym, ◌∙◌, subst, true, some, In}
use infrastructure_in_a_box.Prelude.Text.{Text, text_discrete}
use infrastructure_in_a_box.Prelude.Table.{get, IsMap}
use infrastructure_in_a_box.Acme.State.{
  Order, Authorization, State, authorization_of, is_ready, is_proven, is_waiting, is_processing,
}
use infrastructure_in_a_box.Acme.Orders.{is_some}
use infrastructure_in_a_box.Acme.Revocation.{is_validated}

-- A challenge runs only while its authorization waits, and an authorization is valid only with a
-- challenge that was validated at some time.
pub record IsConsistent (a : Authorization) : Type 0 where
  pub waits : is_processing a.challenge_status ≡ true → is_waiting a.status ≡ true
  pub validated : is_proven a.status ≡ true → is_validated a.challenge_status ≡ true
  pub dated : is_proven a.status ≡ true → is_some a.validated ≡ true

pub record IsSound (st : State) : Type 0 where
  pub orders_map : IsMap text_discrete st.orders
  pub authorizations_map : IsMap text_discrete st.authorizations
  pub order_key : (k : Text) (o : Order) → get text_discrete k st.orders ≡ some o → o.id ≡ k
  pub authorization_key :
      (x : Text) (a : Authorization) → get text_discrete x st.authorizations ≡ some a → a.id ≡ x
  -- An authorization that an order lists is there, belongs to the order and to its account.
  pub listed :
      (k : Text) (o : Order) (x : Text)
      → get text_discrete k st.orders ≡ some o
      → In x o.auth_ids
      → (a : Authorization) × (get text_discrete x st.authorizations ≡ some a)
        × (a.order_id ≡ k)
        × (a.account_id ≡ o.account_id)
  -- No authorization outlives its order.
  pub attached :
      (x : Text) (a : Authorization)
      → get text_discrete x st.authorizations ≡ some a
      → (o : Order) × (get text_discrete a.order_id st.orders ≡ some o) × In x o.auth_ids
  -- An order is ready only when every authorization is valid.
  pub ready :
      (k : Text) (o : Order) (x : Text)
      → get text_discrete k st.orders ≡ some o
      → is_ready o.status ≡ true
      → In x o.auth_ids
      → is_proven (authorization_of st x).status ≡ true
  pub consistent :
      (x : Text) (a : Authorization)
      → get text_discrete x st.authorizations ≡ some a
      → IsConsistent a

-- What an edit of an order or of an authorization leaves alone.
pub record SameOrder (o p : Order) : Type 0 where
  pub id : p.id ≡ o.id
  pub account_id : p.account_id ≡ o.account_id
  pub auth_ids : p.auth_ids ≡ o.auth_ids

pub record SameAuthorization (a b : Authorization) : Type 0 where
  pub id : b.id ≡ a.id
  pub account_id : b.account_id ≡ a.account_id
  pub order_id : b.order_id ≡ a.order_id

-- `t` has the orders and the authorizations of `s`, changed in their statuses only.
pub record IsEdit (s t : State) : Type 0 where
  pub orders_map : IsMap text_discrete t.orders
  pub authorizations_map : IsMap text_discrete t.authorizations
  pub order_from :
      (k : Text) (p : Order)
      → get text_discrete k t.orders ≡ some p
      → (o : Order) × (get text_discrete k s.orders ≡ some o) × SameOrder o p
  pub order_to :
      (k : Text) (o : Order)
      → get text_discrete k s.orders ≡ some o
      → (p : Order) × (get text_discrete k t.orders ≡ some p) × SameOrder o p
  pub authorization_from :
      (x : Text) (b : Authorization)
      → get text_discrete x t.authorizations ≡ some b
      → (a : Authorization) × (get text_discrete x s.authorizations ≡ some a)
        × SameAuthorization a b
  pub authorization_to :
      (x : Text) (a : Authorization)
      → get text_discrete x s.authorizations ≡ some a
      → (b : Authorization) × (get text_discrete x t.authorizations ≡ some b)
        × SameAuthorization a b

-- An edit keeps what ties orders and authorizations together.
pub IsEdit-IsSound :
    {s t : State}
    → IsEdit s t
    → IsSound s
    → ((k : Text) (o : Order) (x : Text)
        → get text_discrete k t.orders ≡ some o
        → is_ready o.status ≡ true
        → In x o.auth_ids
        → is_proven (authorization_of t x).status ≡ true)
    → ((x : Text) (a : Authorization)
        → get text_discrete x t.authorizations ≡ some a
        → IsConsistent a)
    → IsSound t
IsEdit-IsSound {s} {t} e h ready consistent = record {
  orders_map = e.orders_map;
  authorizations_map = e.authorizations_map;
  order_key = λ k p found.
      (let (o, before, same) = e.order_from k p found in same.id ∙ h.order_key k o before);
  authorization_key = λ x b found.
      (let (a, before, same) = e.authorization_from x b found in
        same.id ∙ h.authorization_key x a before);
  listed = λ k p x found i.
      (let (o, before, same) = e.order_from k p found in
        let (a, old, order_id, account_id) =
          h.listed k o x before (subst (λ ids. In x ids) same.auth_ids i) in
        let (b, new, alike) = e.authorization_to x a old in
        (b, new, alike.order_id ∙ order_id, alike.account_id ∙ account_id ∙ sym same.account_id));
  attached = λ x b found.
      (let (a, before, same) = e.authorization_from x b found in
        let (o, old, i) = h.attached x a before in
        let (p, new, alike) = e.order_to a.order_id o old in
        (
          p,
          subst (λ k. get text_discrete k t.orders ≡ some p) (sym same.order_id) new,
          subst (λ ids. In x ids) (sym alike.auth_ids) i,
        ));
  ready = ready;
  consistent = consistent;
}

pub same_order : (o : Order) → SameOrder o o
same_order o = record { id = refl; account_id = refl; auth_ids = refl }

pub same_authorization : (a : Authorization) → SameAuthorization a a
same_authorization a = record { id = refl; account_id = refl; order_id = refl }

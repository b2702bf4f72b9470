-- ===== src/Acme/Rewrites.antt =====
-- internal/acmeserver/orders.go: the rewriting of all orders or authorizations in place.
use infrastructure_in_a_box.Prelude.{
  ◌≡◌, refl, sym, ◌∙◌, subst, ap, true, Option, none, some, arith, In,
}
use infrastructure_in_a_box.Prelude.Text.{Text, text_discrete}
use infrastructure_in_a_box.Prelude.Table.{
  get, update_all, updated, get-update_all, update_all-IsMap,
}
use infrastructure_in_a_box.Acme.State.{
  Order, Authorization, State, no_authorization, or_zero, is_ready, is_proven,
}
use infrastructure_in_a_box.Acme.Store.{recovered}
use infrastructure_in_a_box.Acme.Accounts.{closed_order, closed_authorization, closed}
use infrastructure_in_a_box.Acme.Challenges.{proven}
use infrastructure_in_a_box.Acme.Invariant.{
  IsConsistent, IsSound, SameOrder, SameAuthorization, IsEdit-IsSound,
}

-- What an entry was before it was rewritten.
updated-some :
    {V : Type 0} (f : V → V) (m : Option V) (w : V)
    → updated f m ≡ some w
    → (v : V) × (m ≡ some v) × (w ≡ f v)
updated-some f none w e = cc
updated-some f (some v) w e = (v, refl, cc)

closed_order-SameOrder : (id : Text) (o : Order) → SameOrder o (closed_order id o)
closed_order-SameOrder id o = ground arith

closed_authorization-SameAuthorization :
    (id : Text) (a : Authorization) → SameAuthorization a (closed_authorization id a)
closed_authorization-SameAuthorization id a = ground arith

closed_order-ready :
    (id : Text) (o : Order) → is_ready (closed_order id o).status ≡ true → is_ready o.status ≡ true
closed_order-ready id o r = ground arith

closed_authorization-proven :
    (id : Text) (a : Authorization)
    → is_proven a.status ≡ true
    → is_proven (closed_authorization id a).status ≡ true
closed_authorization-proven id a p = ground arith

closed_authorization-IsConsistent :
    (id : Text) (a : Authorization) → IsConsistent a → IsConsistent (closed_authorization id a)
closed_authorization-IsConsistent id a h = ground arith

pub recovered-SameAuthorization : (a : Authorization) → SameAuthorization a (recovered a)
recovered-SameAuthorization a = ground arith

pub recovered-proven :
    (a : Authorization) → is_proven a.status ≡ true → is_proven (recovered a).status ≡ true
recovered-proven a p = ground arith

pub recovered-IsConsistent : (a : Authorization) → IsConsistent a → IsConsistent (recovered a)
recovered-IsConsistent a h = ground (arith, h.waits, h.validated, h.dated)

module _ (f : Order → Order) (g : Authorization → Authorization) (s : State) (h : IsSound s) where
  abbrev pub rewritten : State
  rewritten = record s {
    orders = update_all f s.orders;
    authorizations = update_all g s.authorizations;
  }

  -- All orders and authorizations are rewritten in place.
  pub rewritten-IsSound :
      ((o : Order) → SameOrder o (f o))
      → ((a : Authorization) → SameAuthorization a (g a))
      → ((o : Order) → is_ready (f o).status ≡ true → is_ready o.status ≡ true)
      → ((a : Authorization) → is_proven a.status ≡ true → is_proven (g a).status ≡ true)
      → ((a : Authorization) → IsConsistent a → IsConsistent (g a))
      → IsSound rewritten
  rewritten-IsSound same alike unready proven good =
      IsEdit-IsSound
        (record {
          orders_map = update_all-IsMap text_discrete f s.orders h.orders_map;
          authorizations_map =
              update_all-IsMap text_discrete g s.authorizations h.authorizations_map;
          order_from = λ k p found.
              (let (o, old, e) = order_was k p found in
                (o, old, subst (SameOrder o) (sym e) (same o)));
          order_to = λ k o old.
              (f o, get-update_all text_discrete f k s.orders ∙ ap (updated f) old, same o);
          authorization_from = λ x b found.
              (let (a, old, e) = was x b found in
                (a, old, subst (SameAuthorization a) (sym e) (alike a)));
          authorization_to = λ x a old. (
            g a,
            get-update_all text_discrete g x s.authorizations ∙ ap (updated g) old,
            alike a,
          );
        })
        h
        (λ k p x found r i.
          (let (o, old, e) = order_was k p found in
            let j = subst (λ l. In x l) (ap (λ q. q.auth_ids) e ∙ (same o).auth_ids) i in
            let ready = unready o (subst (λ q. is_ready q.status ≡ true) e r) in
            let (a, there, _, _) = h.listed k o x old j in
            ap (λ c. is_proven (or_zero no_authorization c).status)
              (get-update_all text_discrete g x s.authorizations ∙ ap (updated g) there)
            ∙ proven a (
                ap (λ c. is_proven (or_zero no_authorization c).status) (sym there)
                ∙ h.ready k o x old ready j)))
        (λ x b found.
          let (a, old, e) = was x b found in
          subst IsConsistent (sym e) (good a (h.consistent x a old)))
    where
      order_was :
          (k : Text) (p : Order)
          → get text_discrete k (update_all f s.orders) ≡ some p
          → (o : Order) × (get text_discrete k s.orders ≡ some o) × (p ≡ f o)
      order_was k p found =
          updated-some f (get text_discrete k s.orders) p
            (sym (get-update_all text_discrete f k s.orders) ∙ found)

      was :
          (x : Text) (b : Authorization)
          → get text_discrete x (update_all g s.authorizations) ≡ some b
          → (a : Authorization) × (get text_discrete x s.authorizations ≡ some a) × (b ≡ g a)
      was x b found =
          updated-some g (get text_discrete x s.authorizations) b
            (sym (get-update_all text_discrete g x s.authorizations) ∙ found)

pub closed-IsSound : (id : Text) (s : State) → IsSound s → IsSound (closed id s)
unfolding closed
closed-IsSound id s h =
    rewritten-IsSound (closed_order id) (closed_authorization id) s h (closed_order-SameOrder id)
      (closed_authorization-SameAuthorization id) (closed_order-ready id)
      (closed_authorization-proven id) (closed_authorization-IsConsistent id)

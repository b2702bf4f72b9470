-- ===== src/Acme/Changes.antt =====
-- internal/acmeserver/accounts.go, orders.go and revocation.go: the edits that the handlers make to
-- a snapshot, and the invariant.
use infrastructure_in_a_box.Prelude.{◌≡◌, sym, ◌∙◌, subst, ap, ◌≢◌, inl, inr, true, false, some, In}
use infrastructure_in_a_box.Prelude.Text.{Text, text_discrete}
use infrastructure_in_a_box.Prelude.Table.{
  get, put, IsMap, put-IsMap, put-from, put_same, put_other,
}
use infrastructure_in_a_box.Acme.State.{
  Order, Authorization, State, no_authorization, or_zero, authorization_of, put_order,
  put_authorization, is_ready, is_proven,
}
use infrastructure_in_a_box.Acme.Invariant.{
  IsConsistent, IsSound, SameOrder, SameAuthorization, IsEdit-IsSound,
}
use infrastructure_in_a_box.Acme.Edits.{
  IsEdit-trans, true≢false, one_value, put_order-IsEdit, put_authorization-IsEdit,
}

-- A snapshot with the same orders and authorizations.
pub same_tables-IsSound :
    {s : State} (t : State)
    → t.orders ≡ s.orders
    → t.authorizations ≡ s.authorizations
    → IsSound s
    → IsSound t
same_tables-IsSound {s} t eo ea h = record {
  orders_map = subst (IsMap text_discrete) (sym eo) h.orders_map;
  authorizations_map = subst (IsMap text_discrete) (sym ea) h.authorizations_map;
  order_key = λ k o found. h.order_key k o (old k o found);
  authorization_key = λ x a found. h.authorization_key x a (was x a found);
  listed = λ k o x found i.
      (let (a, there, belongs, same) = h.listed k o x (old k o found) i in
        (a, ap (get text_discrete x) ea ∙ there, belongs, same));
  attached = λ x a found.
      (let (o, there, i) = h.attached x a (was x a found) in
        (o, ap (get text_discrete a.order_id) eo ∙ there, i));
  ready = λ k o x found r i.
      ap (λ m. is_proven (or_zero no_authorization (get text_discrete x m)).status) ea
      ∙ h.ready k o x (old k o found) r i;
  consistent = λ x a found. h.consistent x a (was x a found);
}
  where
    old :
        (k : Text) (o : Order)
        → get text_discrete k t.orders ≡ some o
        → get text_discrete k s.orders ≡ some o
    old k o found = sym (ap (get text_discrete k) eo) ∙ found

    was :
        (x : Text) (a : Authorization)
        → get text_discrete x t.authorizations ≡ some a
        → get text_discrete x s.authorizations ≡ some a
    was x a found = sym (ap (get text_discrete x) ea) ∙ found

-- The authorization under a key behind an assignment.
authorization_of_same :
    (s : State) (x : Text) (b : Authorization) → authorization_of (put_authorization x b s) x ≡ b
authorization_of_same s x b =
    ap (or_zero no_authorization) (put_same text_discrete x b s.authorizations)

authorization_of_other :
    (s : State) (x y : Text) (b : Authorization)
    → x ≢ y
    → authorization_of (put_authorization x b s) y ≡ authorization_of s y
authorization_of_other s x y b n =
    ap (or_zero no_authorization) (put_other text_discrete x y b s.authorizations n)

IsConsistent-put :
    {s : State} (x : Text) (b : Authorization)
    → IsSound s
    → IsConsistent b
    → (y : Text) (c : Authorization)
    → get text_discrete y (put text_discrete x b s.authorizations) ≡ some c
    → IsConsistent c
IsConsistent-put {s} x b h good y c found =
    elim (put-from text_discrete x y b c s.authorizations found) [
      | inl (e, new) ↦ subst IsConsistent (sym new) good
      | inr (n, old) ↦ h.consistent y c old
    ]

-- The challenge of an authorization changes, and its status does not.
pub put_authorization-IsSound :
    {s : State} (x : Text) {a : Authorization} (b : Authorization)
    → IsSound s
    → get text_discrete x s.authorizations ≡ some a
    → SameAuthorization a b
    → b.status ≡ a.status
    → IsConsistent b
    → IsSound (put_authorization x b s)
put_authorization-IsSound {s} x {a} b h found same status good =
    IsEdit-IsSound (put_authorization-IsEdit x b h.orders_map h.authorizations_map found same) h
      (λ k o y there r i. elim (text_discrete x y) [
        | yes e ↦
            subst (λ y. is_proven (authorization_of (put_authorization x b s) y).status ≡ true) e
              (ap (λ c. is_proven c.status) (authorization_of_same s x b)
                ∙ ap is_proven status
                ∙ ap (λ c. is_proven (or_zero no_authorization c).status)
                    (sym (ap (λ y. get text_discrete y s.authorizations) (sym e) ∙ found))
                ∙ h.ready k o y there r i)
        | no n ↦
            ap (λ c. is_proven c.status) (authorization_of_other s x y b n)
            ∙ h.ready k o y there r i
      ])
      (IsConsistent-put x b h good)

-- An authorization and its order change together; the order is ready only if all is proven.
pub put_pair-IsSound :
    {s : State} (x : Text) {a : Authorization} (b : Authorization) {o : Order} (p : Order)
    → IsSound s
    → get text_discrete x s.authorizations ≡ some a
    → get text_discrete a.order_id s.orders ≡ some o
    → SameAuthorization a b
    → SameOrder o p
    → IsConsistent b
    → (is_ready p.status ≡ true
        → (y : Text) → In y p.auth_ids
        → is_proven (authorization_of (put_authorization x b s) y).status ≡ true)
    → IsSound (put_order a.order_id p (put_authorization x b s))
put_pair-IsSound {s} x {a} b {o} p h found there same alike good proven =
    IsEdit-IsSound
      (IsEdit-trans (put_authorization-IsEdit x b h.orders_map h.authorizations_map found same) (
        put_order-IsEdit a.order_id p h.orders_map
          (put-IsMap text_discrete x b s.authorizations h.authorizations_map) there alike))
      h
      (λ k q y here r i. elim (put-from text_discrete a.order_id k p q s.orders here) [
        | inl (e, new) ↦
            proven (subst (λ q. is_ready q.status ≡ true) new r) y
              (subst (λ q. In y q.auth_ids) new i)
        | inr (n, old) ↦
            ap (λ c. is_proven c.status)
              (authorization_of_other s x y b (λ e.
                (let (c, it, belongs, _) = h.listed k q y old i in
                  n (
                    ap (λ c. c.order_id) (one_value x y a c s.authorizations e found it)
                    ∙ belongs))))
            ∙ h.ready k q y old r i
      ])
      (IsConsistent-put x b h good)

-- An order changes into one that is not ready.
pub put_order-IsSound :
    {s : State} (k : Text) {o : Order} (p : Order)
    → IsSound s
    → get text_discrete k s.orders ≡ some o
    → SameOrder o p
    → is_ready p.status ≡ false
    → IsSound (put_order k p s)
put_order-IsSound {s} k {o} p h found same over =
    IsEdit-IsSound (put_order-IsEdit k p h.orders_map h.authorizations_map found same) h
      (λ j q y here r i. elim (put-from text_discrete k j p q s.orders here) [
        | inl (e, new) ↦ cc
        | inr (n, old) ↦ h.ready j q y old r i
      ])
      h.consistent

-- An authorization changes whose order is not ready.
pub put_unready-IsSound :
    {s : State} (x : Text) {a : Authorization} (b : Authorization)
    → IsSound s
    → get text_discrete x s.authorizations ≡ some a
    → SameAuthorization a b
    → IsConsistent b
    → ((o : Order) → get text_discrete a.order_id s.orders ≡ some o → is_ready o.status ≡ false)
    → IsSound (put_authorization x b s)
put_unready-IsSound {s} x {a} b h found same good unready =
    IsEdit-IsSound (put_authorization-IsEdit x b h.orders_map h.authorizations_map found same) h
      (λ k q y old r i.
        (let (c, there, belongs, _) = h.listed k q y old i in
          ap (λ c. is_proven c.status)
            (authorization_of_other s x y b (λ e.
              (let one =
                  ap (λ c. c.order_id) (one_value x y a c s.authorizations e found there)
                  ∙ belongs in
                true≢false (sym r ∙ unready q (ap (λ k. get text_discrete k s.orders) one ∙ old)))))
          ∙ h.ready k q y old r i))
      (IsConsistent-put x b h good)

-- ===== src/Acme/Ordering.antt =====
-- A new order keeps a snapshot sound.
use infrastructure_in_a_box.Prelude.{
  ℕ, ◌≡◌, refl, sym, ◌∙◌, subst, ap, ◌⊎◌, inl, inr, false, List, [], ◌∷◌, Option, none, some, In,
}
use infrastructure_in_a_box.Prelude.Text.{Text, text_discrete}
use infrastructure_in_a_box.Prelude.Table.{
  Table, get, put, IsMap, put-IsMap, put-from, put_same, put_other,
}
use infrastructure_in_a_box.Acme.State.{
  Order, Identifier, Authorization, State, no_authorization, or_zero, is_ready, is_proven,
}
use infrastructure_in_a_box.Acme.Orders.{
  fresh_authorization, make_authorizations, auth_ids_of, put_all, with_order,
}
use infrastructure_in_a_box.Acme.Invariant.{IsConsistent, IsSound}
use infrastructure_in_a_box.Acme.Pruning.{some≢none}

-- An authorization that was made for an order, under one of the drawn names.
pub record IsMade (o : Order) (drawn : List Text) (a : Authorization) : Type 0 where
  pub order_id : a.order_id ≡ o.id
  pub account_id : a.account_id ≡ o.account_id
  pub id : In a.id drawn
  pub consistent : IsConsistent a

fresh_authorization-IsMade :
    (o : Order) (name auth_id token : Text) (drawn : List Text)
    → IsMade o (auth_id ∷ token ∷ drawn) (fresh_authorization o name auth_id token)
fresh_authorization-IsMade o name auth_id token drawn = record {
  order_id = refl;
  account_id = refl;
  id = inl refl;
  consistent = record { waits = λ e. refl; validated = λ e. cc; dated = λ e. cc };
}

IsMade-later :
    {o : Order} {drawn : List Text} {a : Authorization} (x y : Text)
    → IsMade o drawn a
    → IsMade o (x ∷ y ∷ drawn) a
IsMade-later x y h = record {
  order_id = h.order_id;
  account_id = h.account_id;
  id = inr (inr h.id);
  consistent = h.consistent;
}

pub make_authorizations-IsMade :
    (o : Order) (identifiers : List Identifier) (drawn : List Text) (auths : List Authorization)
    → make_authorizations o identifiers drawn ≡ some auths
    → (a : Authorization) → In a auths
    → IsMade o drawn a
unfolding make_authorizations
make_authorizations-IsMade o [] drawn [] e a i = absurd i
make_authorizations-IsMade o [] drawn (b ∷ auths) e a i = cc
make_authorizations-IsMade o (n ∷ identifiers) [] auths e a i = cc
make_authorizations-IsMade o (n ∷ identifiers) (x ∷ []) auths e a i = cc
make_authorizations-IsMade o (n ∷ identifiers) (x ∷ y ∷ drawn) auths e a i =
    go (make_authorizations o identifiers drawn) refl
      (λ rest made. make_authorizations-IsMade o identifiers drawn rest made a) auths e i
  where
    go :
        (m : Option (List Authorization))
        → make_authorizations o identifiers drawn ≡ m
        → ((rest : List Authorization)
            → make_authorizations o identifiers drawn ≡ some rest
            → In a rest
            → IsMade o drawn a)
        → (auths : List Authorization)
        → (elim m [ none ↦ none | some rest ↦ some (fresh_authorization o n.value x y ∷ rest) ])
          ≡ some auths
        → In a auths
        → IsMade o (x ∷ y ∷ drawn) a
    go none made deep auths e i = cc
    go (some rest) made deep [] e i = absurd i
    go (some rest) made deep (b ∷ auths) e (inl same) =
        let one : fresh_authorization o n.value x y ≡ a = cc in
        subst (IsMade o (x ∷ y ∷ drawn)) one (fresh_authorization-IsMade o n.value x y drawn)
    go (some rest) made deep (b ∷ auths) e (inr i) =
        let same : auths ≡ rest = cc in
        IsMade-later x y (deep rest made (subst (λ l. In a l) same i))

put_all-IsMap :
    (auths : List Authorization) (m : Table Text Authorization)
    → IsMap text_discrete m
    → IsMap text_discrete (put_all auths m)
unfolding put_all
put_all-IsMap [] m h = h
put_all-IsMap (a ∷ auths) m h =
    put_all-IsMap auths (put text_discrete a.id a m) (put-IsMap text_discrete a.id a m h)

auth_ids_of-In :
    (a : Authorization) (auths : List Authorization) → In a auths → In a.id (auth_ids_of auths)
auth_ids_of-In a [] i = absurd i
auth_ids_of-In a (b ∷ auths) (inl e) = inl (ap (λ b. b.id) e)
auth_ids_of-In a (b ∷ auths) (inr i) = inr (auth_ids_of-In a auths i)

-- A key behind the assignments holds one of the new values, or what it held.
get-put_all :
    (auths : List Authorization) (m : Table Text Authorization) (x : Text)
    → ((a : Authorization) × In a auths
        × (a.id ≡ x)
        × (get text_discrete x (put_all auths m) ≡ some a))
      ⊎ (¬ In x (auth_ids_of auths)
          × (get text_discrete x (put_all auths m) ≡ get text_discrete x m))
unfolding put_all
get-put_all [] m x = inr (λ i. i, refl)
get-put_all (b ∷ auths) m x = elim (get-put_all auths (put text_discrete b.id b m) x) [
  | inl (a, i, key, found) ↦ inl (a, inr i, key, found)
  | inr (out, same) ↦ elim (text_discrete b.id x) [
    | yes e ↦ inl (
      b,
      inl refl,
      e,
      same
          ∙ subst (λ x. get text_discrete x (put text_discrete b.id b m) ≡ some b) e
              (put_same text_discrete b.id b m),
    )
    | no n ↦
        inr (
          (λ i. elim i [ inl e ↦ n e | inr j ↦ out j ]),
          same ∙ put_other text_discrete b.id x b m n,
        )
  ]
]

-- The order and its authorizations are new to the snapshot.
pub record IsNew (s : State) (o : Order) (auths : List Authorization) : Type 0 where
  pub order : get text_discrete o.id s.orders ≡ none
  pub unready : is_ready o.status ≡ false
  pub authorization :
      (a : Authorization) → In a auths → get text_discrete a.id s.authorizations ≡ none
  pub order_id : (a : Authorization) → In a auths → a.order_id ≡ o.id
  pub account_id : (a : Authorization) → In a auths → a.account_id ≡ o.account_id
  pub consistent : (a : Authorization) → In a auths → IsConsistent a

-- The snapshot with the order is sound.
pub with_order-IsSound :
    (now : ℕ) (source : Text) (o : Order) (auths : List Authorization) (s : State)
    → IsSound s
    → IsNew s o auths
    → IsSound (with_order now source o auths s)
unfolding with_order
with_order-IsSound now source o auths s h new = record {
  orders_map = put-IsMap text_discrete o.id p s.orders h.orders_map;
  authorizations_map = put_all-IsMap auths s.authorizations h.authorizations_map;
  order_key = λ k q found. elim (put-from text_discrete o.id k p q s.orders found) [
    | inl (e, here) ↦ ap (λ q. q.id) here ∙ e
    | inr (n, old) ↦ h.order_key k q old
  ];
  authorization_key = λ x a found. elim (origin x a found) [
    | inl (i, key) ↦ key
    | inr (out, old) ↦ h.authorization_key x a old
  ];
  listed = λ k q x found i. elim (put-from text_discrete o.id k p q s.orders found) [
    | inl (e, here) ↦ elim (get-put_all auths s.authorizations x) [
      | inl (a, j, key, there) ↦
          (a, there, new.order_id a j ∙ e, new.account_id a j ∙ ap (λ q. q.account_id) (sym here))
      | inr (out, same) ↦ absurd (out (subst (λ q. In x q.auth_ids) here i))
    ]
    | inr (n, old) ↦
        let (a, there, belongs, mine) = h.listed k q x old i in
        (a, untouched x a there ∙ there, belongs, mine)
  ];
  attached = λ x a found. elim (origin x a found) [
    | inl (i, key) ↦ (
      p,
      subst (λ k. get text_discrete k (put text_discrete o.id p s.orders) ≡ some p)
          (sym (new.order_id a i)) (put_same text_discrete o.id p s.orders),
      subst (λ x. In x (auth_ids_of auths)) key (auth_ids_of-In a auths i),
    )
    | inr (out, old) ↦
        let (q, there, i) = h.attached x a old in
        (
          q,
          put_other text_discrete o.id a.order_id p s.orders (λ e.
                some≢none (sym there ∙ sym (ap (λ k. get text_discrete k s.orders) e) ∙ new.order))
              ∙ there,
          i,
        )
  ];
  ready = λ k q x found r i. elim (put-from text_discrete o.id k p q s.orders found) [
    | inl (e, here) ↦ cc
    | inr (n, old) ↦
        let (a, there, belongs, mine) = h.listed k q x old i in
        ap (λ c. is_proven (or_zero no_authorization c).status) (untouched x a there)
        ∙ h.ready k q x old r i
  ];
  consistent = λ x a found. elim (origin x a found) [
    | inl (i, key) ↦ new.consistent a i
    | inr (out, old) ↦ h.consistent x a old
  ];
}
  where
    p : Order
    p = record o { auth_ids = auth_ids_of auths }

    origin :
        (x : Text) (a : Authorization)
        → get text_discrete x (put_all auths s.authorizations) ≡ some a
        → (In a auths × (a.id ≡ x))
          ⊎ (¬ In x (auth_ids_of auths) × (get text_discrete x s.authorizations ≡ some a))
    origin x a found = elim (get-put_all auths s.authorizations x) [
      | inl (b, i, key, here) ↦
          let e : b ≡ a = cc in inl (subst (λ b. In b auths) e i, ap (λ b. b.id) (sym e) ∙ key)
      | inr (out, same) ↦ inr (out, sym same ∙ found)
    ]

    untouched :
        (x : Text) (a : Authorization)
        → get text_discrete x s.authorizations ≡ some a
        → get text_discrete x (put_all auths s.authorizations)
          ≡ get text_discrete x s.authorizations
    untouched x a there = elim (get-put_all auths s.authorizations x) [
      | inl (b, i, key, here) ↦ absurd (
          some≢none (
            sym there
            ∙ ap (λ x. get text_discrete x s.authorizations) (sym key)
            ∙ new.authorization b i))
      | inr (out, same) ↦ same
    ]

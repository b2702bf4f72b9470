-- ===== src/Acme/Pruning.antt =====
-- What prune drops from a snapshot: orders go with their authorizations, and nothing else goes.
use infrastructure_in_a_box.Prelude.{
  ℕ, ◌≡◌, refl, sym, ◌∙◌, subst, ap, ◌≢◌, ◌⊎◌, inl, inr, Bool, true, false, List, [], ◌∷◌, ◌++◌,
  Option, none, some, if◌then◌else◌, arith, In, Bool-cases, Option-cases,
}
use infrastructure_in_a_box.Prelude.Text.{Text, text_discrete}
use infrastructure_in_a_box.Prelude.Table.{
  Table, get, erase, retain, keep_if, IsMap, get-erase, erase-IsMap, get-retain, retain-IsMap,
  get-In, In-get,
}
use infrastructure_in_a_box.Acme.State.{
  Order, Authorization, State, no_authorization, or_zero, is_proven,
}
use infrastructure_in_a_box.Acme.Store.{is_kept, erase_all, dropped_authorizations, prune}
use infrastructure_in_a_box.Acme.Invariant.{IsSound}
use infrastructure_in_a_box.Acme.Edits.{one_value, true≢false}

In-++ : {A : Type 0} (x : A) (xs ys : List A) → In x (xs ++ ys) → In x xs ⊎ In x ys
In-++ x [] ys i = inr i
In-++ x (y ∷ xs) ys (inl e) = inl (inl e)
In-++ x (y ∷ xs) ys (inr i) = elim (In-++ x xs ys i) [ inl j ↦ inl (inr j) | inr j ↦ inr j ]

In-left : {A : Type 0} (x : A) (xs ys : List A) → In x xs → In x (xs ++ ys)
In-left x (y ∷ xs) ys (inl e) = inl e
In-left x (y ∷ xs) ys (inr i) = inr (In-left x xs ys i)
In-left x [] ys i = absurd i

In-right : {A : Type 0} (x : A) (xs ys : List A) → In x ys → In x (xs ++ ys)
In-right x [] ys i = i
In-right x (y ∷ xs) ys i = inr (In-right x xs ys i)

keep_if-some :
    {V : Type 0} (p : V → Bool) (m : Option V) (v : V)
    → keep_if p m ≡ some v
    → (m ≡ some v) × (p v ≡ true)
keep_if-some p none v h = cc
keep_if-some p (some w) v h = ground arith

erase_all-IsMap :
    {V : Type 0} (ks : List Text) (m : Table Text V)
    → IsMap text_discrete m
    → IsMap text_discrete (erase_all ks m)
unfolding erase_all
erase_all-IsMap [] m h = h
erase_all-IsMap (k ∷ ks) m h =
    erase_all-IsMap ks (erase text_discrete k m) (erase-IsMap text_discrete k m h)

get-erase_all :
    {V : Type 0} (ks : List Text) (m : Table Text V) (x : Text) (v : V)
    → get text_discrete x (erase_all ks m) ≡ some v
    → (get text_discrete x m ≡ some v) × ¬ In x ks
unfolding erase_all
get-erase_all [] m x v h = (h, λ i. i)
get-erase_all (k ∷ ks) m x v h =
    let (found, out) = get-erase_all ks (erase text_discrete k m) x v h in
    (elim (text_discrete k x) [
      | yes e ↦ ground (arith, get-erase text_discrete k x m)
      | no n ↦ (
        ground (arith, get-erase text_discrete k x m),
        (λ i. elim i [ inl e ↦ n e | inr j ↦ out j ]),
      )
    ])

erase_all-kept :
    {V : Type 0} (ks : List Text) (m : Table Text V) (x : Text)
    → ¬ In x ks
    → get text_discrete x (erase_all ks m) ≡ get text_discrete x m
unfolding erase_all
erase_all-kept [] m x out = refl
erase_all-kept (k ∷ ks) m x out =
    erase_all-kept ks (erase text_discrete k m) x (λ i. out (inr i)) ∙ elim (text_discrete k x) [
      | yes e ↦ absurd (out (inl e))
      | no n ↦ ground (arith, get-erase text_discrete k x m)
    ]

-- `x` belongs to an order of `m` that is dropped.
abbrev Dropped : ℕ → Text → Table Text Order → Type 0
Dropped now x m = (k : Text) × (o : Order) × In (k, o) m × (is_kept now o ≡ false) × In x o.auth_ids

Dropped-later :
    (now : ℕ) (x j : Text) (p : Order) (m : Table Text Order)
    → Dropped now x m
    → Dropped now x ((j, p) ∷ m)
Dropped-later now x j p m (k, o, there, gone, i) = (k, o, inr there, gone, i)

-- A dropped authorization is one of a dropped order, and the other way round.
Dropped-In :
    (now : ℕ) (m : Table Text Order) (x : Text)
    → In x (dropped_authorizations now m)
    → Dropped now x m
unfolding dropped_authorizations
Dropped-In now [] x i = absurd i
Dropped-In now ((j, o) ∷ m) x i = go (Dropped-In now m x) (is_kept now o) refl i
  where
    go :
        (In x (dropped_authorizations now m) → Dropped now x m)
        → (b : Bool) → is_kept now o ≡ b
        → In x
            (if b then dropped_authorizations now m else o.auth_ids ++ dropped_authorizations now m)
        → Dropped now x ((j, o) ∷ m)
    go rest true kept deep = Dropped-later now x j o m (rest deep)
    go rest false gone i = elim (In-++ x o.auth_ids (dropped_authorizations now m) i) [
      | inl here ↦ (j, o, inl refl, gone, here)
      | inr deep ↦ Dropped-later now x j o m (rest deep)
    ]

In-dropped :
    (now : ℕ) (m : Table Text Order) (x k : Text) (o : Order)
    → In (k, o) m
    → is_kept now o ≡ false
    → In x o.auth_ids
    → In x (dropped_authorizations now m)
unfolding dropped_authorizations
In-dropped now [] x k o there gone i = absurd there
In-dropped now ((j, p) ∷ m) x k o (inl e) gone i =
    subst
      (λ b.
        In x
          (if b then dropped_authorizations now m else p.auth_ids ++ dropped_authorizations now m))
      (sym (ap (λ e. is_kept now e.1) e ∙ gone))
      (In-left x p.auth_ids (dropped_authorizations now m)
        (subst (λ e. In x e.1.auth_ids) (sym e) i))
In-dropped now ((j, p) ∷ m) x k o (inr there) gone i =
    go (is_kept now p) (In-dropped now m x k o there gone i)
  where
    go :
        (b : Bool)
        → In x (dropped_authorizations now m)
        → In x
            (if b then dropped_authorizations now m else p.auth_ids ++ dropped_authorizations now m)
    go true deep = deep
    go false deep = In-right x p.auth_ids (dropped_authorizations now m) deep

-- No authorization is listed by two orders.
one_order :
    {s : State}
    → IsSound s
    → (x k j : Text) (o p : Order) → get text_discrete k s.orders ≡ some o
    → get text_discrete j s.orders ≡ some p
    → In x o.auth_ids
    → In x p.auth_ids
    → k ≡ j
one_order {s} h x k j o p found there i l =
    let (a, mine, first, _) = h.listed k o x found i in
    let (b, his, second, _) = h.listed j p x there l in
    sym first ∙ ap (λ c. c.order_id) (one_value x x a b s.authorizations refl mine his) ∙ second

pub some≢none : {A : Type 0} {a : A} → some a ≢ none
some≢none e = cc

-- What prune leaves is sound.
pub prune-IsSound :
    (now : ℕ) (activity : Table Text ℕ) (s : State) → IsSound s → IsSound (prune now activity s)
unfolding prune
prune-IsSound now activity s h = record {
  orders_map = retain-IsMap text_discrete (is_kept now) s.orders h.orders_map;
  authorizations_map = erase_all-IsMap dropped s.authorizations h.authorizations_map;
  order_key = λ k o found. h.order_key k o (old k o found).0;
  authorization_key = λ x a found. h.authorization_key x a (was x a found).0;
  listed = λ k o x found i.
      (let (a, there, belongs, same) = h.listed k o x (old k o found).0 i in
        (a, stays k o x found i ∙ there, belongs, same));
  attached = λ x a found.
      (let (o, there, i) = h.attached x a (was x a found).0 in
        (
          o,
          get-retain text_discrete (is_kept now) a.order_id s.orders h.orders_map
              ∙ ap (keep_if (is_kept now)) there
              ∙ kept o (elim (Bool-cases (is_kept now o)) [
                | inl good ↦ good
                | inr gone ↦ absurd (
                    (was x a found).1 (
                      In-dropped now s.orders x a.order_id o
                        (get-In text_discrete a.order_id o s.orders there) gone i))
              ]),
          i,
        ));
  ready = λ k o x found r i.
      ap (λ c. is_proven (or_zero no_authorization c).status) (stays k o x found i)
      ∙ h.ready k o x (old k o found).0 r i;
  consistent = λ x a found. h.consistent x a (was x a found).0;
}
  where
    dropped : List Text
    dropped = dropped_authorizations now s.orders

    kept : (o : Order) → is_kept now o ≡ true → keep_if (is_kept now) (some o) ≡ some o
    kept o good = ground arith

    old :
        (k : Text) (o : Order)
        → get text_discrete k (retain (is_kept now) s.orders) ≡ some o
        → (get text_discrete k s.orders ≡ some o) × (is_kept now o ≡ true)
    old k o found =
        keep_if-some (is_kept now) (get text_discrete k s.orders) o
          (sym (get-retain text_discrete (is_kept now) k s.orders h.orders_map) ∙ found)

    was :
        (x : Text) (a : Authorization)
        → get text_discrete x (erase_all dropped s.authorizations) ≡ some a
        → (get text_discrete x s.authorizations ≡ some a) × ¬ In x dropped
    was x a found = get-erase_all dropped s.authorizations x a found

    -- The authorizations of an order that stays are of no other order, and stay.
    stays :
        (k : Text) (o : Order) (x : Text)
        → get text_discrete k (retain (is_kept now) s.orders) ≡ some o
        → In x o.auth_ids
        → get text_discrete x (erase_all dropped s.authorizations)
          ≡ get text_discrete x s.authorizations
    stays k o x found i = erase_all-kept dropped s.authorizations x (λ gone.
        (let (j, p, there, out, listed) = Dropped-In now s.orders x gone in
          let it = In-get text_discrete j p s.orders h.orders_map there in
          let (found, good) = old k o found in
          let same = one_order h x k j o p found it i listed in
          let one = one_value k j o p s.orders same found it in
          absurd (true≢false (sym good ∙ ap (is_kept now) one ∙ out))))

-- What is absent stays absent.
pub prune-absent_order :
    (now : ℕ) (activity : Table Text ℕ) (s : State)
    → IsSound s
    → (k : Text) → get text_discrete k s.orders ≡ none
    → get text_discrete k (prune now activity s).orders ≡ none
unfolding prune
prune-absent_order now activity s h k out =
    get-retain text_discrete (is_kept now) k s.orders h.orders_map ∙ ap (keep_if (is_kept now)) out

pub prune-absent_authorization :
    (now : ℕ) (activity : Table Text ℕ) (s : State) (x : Text)
    → get text_discrete x s.authorizations ≡ none
    → get text_discrete x (prune now activity s).authorizations ≡ none
unfolding prune
prune-absent_authorization now activity s x out =
    elim (Option-cases (get text_discrete x (erase_all dropped s.authorizations))) [
      | inl still ↦ still
      | inr (a, found) ↦
          absurd (some≢none (sym (get-erase_all dropped s.authorizations x a found).0 ∙ out))
    ]
  where
    dropped : List Text
    dropped = dropped_authorizations now s.orders

-- An authorization that stays is the one that was there.
pub prune-authorization :
    (now : ℕ) (activity : Table Text ℕ) (s : State) (x : Text) (a : Authorization)
    → get text_discrete x (prune now activity s).authorizations ≡ some a
    → get text_discrete x s.authorizations ≡ some a
unfolding prune
prune-authorization now activity s x a found =
    (get-erase_all (dropped_authorizations now s.orders) s.authorizations x a found).0

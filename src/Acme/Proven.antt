-- ===== src/Acme/Proven.antt =====
-- internal/acmeserver/orders.go: the names of an order, as finalize collects them.
use infrastructure_in_a_box.Prelude.{
  ℕ, ◌≡◌, refl, ◌∙◌, ap, subst, inl, inr, Bool, true, false, List, [], ◌∷◌, Option, none, some,
  if◌then◌else◌, arith, In, &&-true, ltb,
}
use infrastructure_in_a_box.Prelude.Text.{Text, text_discrete}
use infrastructure_in_a_box.Lease.Address.{addr_discrete}
use infrastructure_in_a_box.Acme.State.{Target, Authorization, State, authorization_of, is_proven}
use infrastructure_in_a_box.Acme.Orders.{Site}
use infrastructure_in_a_box.Acme.Issuance.{is_target, is_current, named, proven_names}

-- The name of an authorization counts at a time: it is proven, unexpired, and the name belongs to
-- the client that was validated.
pub record IsCurrent (site : Site) (now : ℕ) (a : Authorization) : Type 0 where
  pub proven : is_proven a.status ≡ true
  pub unexpired : ltb now a.expires ≡ true
  pub held : site.lookup a.name ≡ some a.target

is_target-some : (target : Target) (m : Option Target) → is_target target m ≡ true → m ≡ some target
unfolding addr_discrete text_discrete
is_target-some target none e = cc
is_target-some target (some found) e = ground arith

is_current-IsCurrent :
    (site : Site) (now : ℕ) (a : Authorization)
    → is_current site now a ≡ true
    → IsCurrent site now a
is_current-IsCurrent site now a e = record {
  proven = (&&-true _ _ (&&-true _ _ e).0).0;
  unexpired = (&&-true _ _ (&&-true _ _ e).0).1;
  held = is_target-some a.target (site.lookup a.name) (&&-true _ _ e).1;
}

named-some :
    (name : Text) (m : Option (List Text)) (names : List Text)
    → named name m ≡ some names
    → (rest : List Text) × (m ≡ some rest) × (names ≡ name ∷ rest)
named-some name none names e = cc
named-some name (some rest) names e = (rest, refl, cc)

-- The names of a list of authorizations.
abbrev pub names_of : State → List Text → List Text
names_of st [] = []
names_of st (x ∷ ids) = (authorization_of st x).name ∷ names_of st ids

-- The loop over the authorizations ends with their names only if each counts.
pub proven_names-some :
    (site : Site) (now : ℕ) (st : State) (ids names : List Text)
    → proven_names site now st ids ≡ some names
    → (names ≡ names_of st ids)
      × ((x : Text) → In x ids → IsCurrent site now (authorization_of st x))
unfolding proven_names
proven_names-some site now st [] names e = (cc, λ x i. absurd i)
proven_names-some site now st (y ∷ ids) names e =
    go (is_current site now (authorization_of st y)) refl (proven_names-some site now st ids) e
  where
    go :
        (b : Bool)
        → is_current site now (authorization_of st y) ≡ b
        → ((rest : List Text)
            → proven_names site now st ids ≡ some rest
            → (rest ≡ names_of st ids)
              × ((x : Text) → In x ids → IsCurrent site now (authorization_of st x)))
        → (if b then named (authorization_of st y).name (proven_names site now st ids) else none)
          ≡ some names
        → (names ≡ names_of st (y ∷ ids))
          × ((x : Text) → In x (y ∷ ids) → IsCurrent site now (authorization_of st x))
    go false lapsed deep e = cc
    go true current deep e =
        let (rest, more, all) =
          named-some (authorization_of st y).name (proven_names site now st ids) names e in
        let (same, good) = deep rest more in
        (
          all ∙ ap (◌∷◌ (authorization_of st y).name) same,
          λ x i. elim i [
            | inl here ↦
                subst (λ x. IsCurrent site now (authorization_of st x)) here
                  (is_current-IsCurrent site now (authorization_of st y) current)
            | inr later ↦ good x later
          ],
        )

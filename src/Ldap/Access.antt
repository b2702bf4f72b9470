-- ===== src/Ldap/Access.antt =====
-- What a search shows without an authorized bind.
use infrastructure_in_a_box.Prelude.{
  ℕ, zero, suc, ◌≡◌, ◌≢◌, ◌⊎◌, Option, none, some, refl, ◌∙◌, ap, inl, inr, Bool, true, false, List,
  [], ◌∷◌, if◌then◌else◌, Bool-cases, take, any,
}
use infrastructure_in_a_box.Prelude.Results.{Result, ok, err, >>=-eq-ok}
use infrastructure_in_a_box.Prelude.Text.{Text}
use infrastructure_in_a_box.Ldap.Packet.{Code, Packet}
use infrastructure_in_a_box.Ldap.Filter.{Filter}
use infrastructure_in_a_box.Ldap.Directory.{Names}
use infrastructure_in_a_box.Ldap.Search.{
  Request, Directory, searched, Tick, Target, request_of, is_for_root, permit, check_search,
  check_arguments, run_search, search, is_hit,
}
use infrastructure_in_a_box.Ldap.Results.{hits, run_search-IsAnswer}

err≢ok : {E A : Type 0} {e : E} {a : A} → err e ≢ ok a
err≢ok q = cc

request_of-is_root :
    {Dn : Type 0} (names : Names Dn) (target : Target Dn) (filter : Option Filter)
    (attributes : Option (List Text)) (r : Request Dn)
    → request_of names target filter attributes ≡ ok r
    → r.is_root ≡ is_for_root names target
request_of-is_root names target none attributes r e = cc
request_of-is_root names target (some filter) none r e = cc
request_of-is_root names target (some filter) (some attributes) r e = cc

permit-is_root :
    {Dn : Type 0} (names : Names Dn) (target : Target Dn) (r : Request Dn)
    → permit names false target ≡ ok r
    → r.is_root ≡ true
unfolding permit
permit-is_root names target r e = elim (Bool-cases (is_for_root names target)) [
  | inl root ↦ request_of-is_root names target _ _ r (rw (root, permit) at e) ∙ root
  | inr other ↦ absurd (err≢ok (rw (other, permit) at e))
]

take-one :
    {A : Type 0} (a : A) (b : Bool) (n : ℕ)
    → (take n (if b then a ∷ [] else []) ≡ []) ⊎ (take n (if b then a ∷ [] else []) ≡ a ∷ [])
take-one a true zero = inl refl
take-one a true (suc zero) = inr refl
take-one a true (suc (suc n)) = inr refl
take-one a false zero = inl refl
take-one a false (suc n) = inl refl

-- A search of the root DSE sends it, or nothing.
run_search-root :
    {Dn : Type 0} (names : Names Dn) (directory : Directory Dn) (clock : ℕ → Tick)
    (request : Request Dn)
    → request.is_root ≡ true
    → ((run_search names directory clock request).sent ≡ [])
      ⊎ ((run_search names directory clock request).sent ≡ directory.root ∷ [])
unfolding run_search
run_search-root names directory clock request root =
    elim (Bool-cases
      (any (λ e. names.same_dn e.parsed_dn request.base) (searched directory request))) [
        | inr missing ↦ rw (missing, run_search) (inl refl)
        | inl base ↦
            let answer = run_search-IsAnswer names directory clock request base in
            let one : hits names request (searched directory request)
                ≡ (if is_hit names request directory.root then directory.root ∷ [] else []) =
              rw root refl in
            let same = answer.first ∙ ap (take answer.shown) one in
            (elim (take-one directory.root (is_hit names request directory.root) answer.shown) [
              | inl none_ ↦ inl (same ∙ none_)
              | inr shown ↦ inr (same ∙ shown)
            ])
      ]

-- A search on a connection that may not search sends nothing, or the root DSE alone, whatever was
-- asked for.
pub search_denied :
    {Dn : Type 0} (names : Names Dn) (directory : Directory Dn) (clock : ℕ → Tick) (op : Packet)
    → ((search names directory clock false op).sent ≡ [])
      ⊎ ((search names directory clock false op).sent ≡ directory.root ∷ [])
unfolding search check_search
search_denied {Dn} names directory clock op = go (check_search names false op) refl
  where
    go :
        (r : Result Code (Request Dn))
        → check_search names false op ≡ r
        → ((search names directory clock false op).sent ≡ [])
          ⊎ ((search names directory clock false op).sent ≡ directory.root ∷ [])
    go (err code) e = rw (e, search) (inl refl)
    go (ok request) e =
        let (target, shape, rest) = >>=-eq-ok (check_arguments names op) (permit names false) e in
        let root = permit-is_root names target request rest in
        rw (e, search) (run_search-root names directory clock request root)

-- ===== src/Ldap/Examples.antt =====
-- Concrete cases of the theorems on the LDAP server, with texts for distinguished names.
use infrastructure_in_a_box.Prelude.{
  ℕ, ◌≡◌, ◌⊎◌, ◌≤◌, sym, subst, inl, inr, refl, true, false, not, ◌&&◌, List, [], ◌∷◌, some, arith,
  length, any, Bool-cases,
}
use infrastructure_in_a_box.Prelude.Text.{Text, bytes, text_discrete, text_eq, has_suffix}
use infrastructure_in_a_box.Prelude.Table.{Table}
use infrastructure_in_a_box.Ldap.Packet.{
  Class, Packet, packet, nil, cons, primitive, constructed, integer_value, boolean_value, no_value,
}
use infrastructure_in_a_box.Ldap.Directory.{Names, Entry, values, is_one_of}
use infrastructure_in_a_box.Ldap.Filter.{
  Filter, present, conjunction, negation, equality, end, also, known_attribute, known_attributes,
  compile_filter,
}
use infrastructure_in_a_box.Ldap.Evaluation.{evaluate}
use infrastructure_in_a_box.Ldap.Search.{Request, Directory, on_time, searched, run_search, search}
use infrastructure_in_a_box.Ldap.Session.{
  User, free, Connection, Message, serve_message, new_connection, max_bind_attempts,
}
use infrastructure_in_a_box.Ldap.Kleene.{grade, degree, evaluate_kleene}
use infrastructure_in_a_box.Ldap.Blindness.{Alike, filter_is_blind}
use infrastructure_in_a_box.Ldap.Results.{IsAnswer, run_search-IsAnswer}
use infrastructure_in_a_box.Ldap.Access.{search_denied}
use infrastructure_in_a_box.Ldap.Sessions.{opened, served, IsGranted, session-IsGranted}

abbrev names : Names Text
names = record {
  unicode = record { lower = λ s. s; trim = λ s. s };
  fold = text_eq;
  parse_dn = λ s. some s;
  same_dn = text_eq;
  is_ancestor = λ a b. has_suffix b a && not (text_eq a b);
  depth = length;
}

abbrev attrs : Table Text (List Text)
attrs = (bytes "cn", bytes "Ann" ∷ []) ∷ (bytes "uid", bytes "ann" ∷ []) ∷ []

abbrev secret : Table Text (List Text)
secret = (bytes "userPassword", bytes "x" ∷ []) ∷ attrs

abbrev has_name_not_secret : Filter
has_name_not_secret = conjunction (
    also (present (bytes "cn"))
      (also (negation (equality false (bytes "userpassword") (bytes "x"))) end))

evaluate_kleene_example :
    grade (evaluate names secret has_name_not_secret) ≡ degree names secret has_name_not_secret
evaluate_kleene_example = evaluate_kleene names secret has_name_not_secret

abbrev octets : Text → Packet
octets text = packet Class.universal primitive 4 no_value text nil

-- (!(userPassword=x))
abbrev not_secret : Packet
not_secret = packet Class.context constructed 2 no_value [] (
    cons
      (packet Class.context constructed 3 no_value []
        (cons (octets (bytes "userPassword")) (cons (octets (bytes "x")) nil)))
      nil)

abbrev AllOf : (Text → Type 0) → List Text → Type 0
AllOf P [] = Unit
AllOf P (n ∷ ns) = P n × AllOf P ns

text_eq-eq : (a b : Text) → text_eq a b ≡ true → a ≡ b
unfolding text_discrete
text_eq-eq a b e = ground arith

one_of :
    (P : Text → Type 0) (ns : List Text) (name : Text)
    → AllOf P ns
    → is_one_of ns name ≡ true
    → P name
one_of P [] name h e = absurd cc
one_of P (n ∷ ns) name h e = elim (Bool-cases (text_eq name n)) [
  | inl same ↦ subst P (sym (text_eq-eq name n same)) h.0
  | inr other ↦ one_of P ns name h.1 (ground arith)
]

-- The secret is no known attribute.
secret-Alike : Alike names attrs secret
unfolding known_attribute values
secret-Alike name known =
    one_of (λ name. values names attrs name ≡ values names secret name) known_attributes name
      (ground arith) known

not_secret-compiles :
    compile_filter names not_secret
    ≡ some (negation (equality false (bytes "userpassword") (bytes "x")))
unfolding compile_filter
not_secret-compiles = refl

filter_is_blind_example :
    evaluate names attrs (negation (equality false (bytes "userpassword") (bytes "x")))
    ≡ evaluate names secret (negation (equality false (bytes "userpassword") (bytes "x")))
filter_is_blind_example =
    filter_is_blind names not_secret (negation (equality false (bytes "userpassword") (bytes "x")))
      attrs secret not_secret-compiles secret-Alike

abbrev ann : Entry Text
ann = record { dn = bytes "uid=ann,dc=lan"; parsed_dn = bytes "uid=ann,dc=lan"; attrs = attrs }

abbrev base : Entry Text
base = record { dn = bytes "dc=lan"; parsed_dn = bytes "dc=lan"; attrs = [] }

abbrev directory : Directory Text
directory = record {
  entries = base ∷ ann ∷ [];
  root = record { dn = []; parsed_dn = []; attrs = [] };
}

abbrev request : Request Text
request = record {
  base = bytes "dc=lan";
  scope = 2;
  size = 1;
  is_root = false;
  filter = present (bytes "cn");
  attributes = [];
  types_only = false;
}

base_found :
    any (λ (e : Entry Text). names.same_dn e.parsed_dn request.base) (searched directory request)
    ≡ true
unfolding text_discrete
base_found = refl

run_search-IsAnswer_example :
    IsAnswer names request 0
      (searched directory request)
      (run_search names directory (λ i. on_time) request)
run_search-IsAnswer_example = run_search-IsAnswer names directory (λ i. on_time) request base_found

abbrev number : ℕ → ℕ → Packet
number tag n = packet Class.universal primitive tag (integer_value n) [] nil

abbrev search_all : Packet
search_all = packet Class.application constructed 3 no_value [] (
    cons (octets (bytes "dc=lan")) (
      cons (number 10 2) (
        cons (number 10 0) (
          cons (number 2 0) (
            cons (number 2 0) (
              cons (packet Class.universal primitive 1 (boolean_value false) [] nil) (
                cons (packet Class.context primitive 7 no_value (bytes "cn") nil)
                  (cons (packet Class.universal constructed 16 no_value [] nil) nil))))))))

search_denied_example :
    ((search names directory (λ i. on_time) false search_all).sent ≡ [])
    ⊎ ((search names directory (λ i. on_time) false search_all).sent ≡ directory.root ∷ [])
search_denied_example = search_denied names directory (λ i. on_time) search_all

abbrev user : User Text
user = record {
  dn = bytes "uid=ann,dc=lan";
  disabled = false;
  can_search = true;
  has_bcrypt = false;
  verify_bcrypt = λ p. false;
  verify_sha256 = λ p. text_eq p (bytes "pw");
}

abbrev bind_ann : Packet
bind_ann = packet Class.universal constructed 16 no_value [] (
    cons (number 2 1) (
      cons
        (packet Class.application constructed 0 no_value [] (
          cons (number 2 3) (
            cons (octets (bytes "uid=ann,dc=lan"))
              (cons (packet Class.context primitive 0 no_value (bytes "pw") nil) nil))))
        nil))

abbrev binding : Message
binding = record { packet = bind_ann; slot = free; clock = λ i. on_time; is_written = true }

abbrev bound : Connection
bound = record { can_search = true; attempts = 1 }

binding-serves : serve_message names directory (user ∷ []) new_connection binding ≡ some bound
unfolding serve_message text_discrete
binding-serves = refl

session-IsGranted_example :
    (bound.can_search ≡ true → IsGranted names directory (user ∷ []) (binding ∷ []))
    × (bound.attempts ≤ max_bind_attempts)
session-IsGranted_example =
    session-IsGranted names directory (user ∷ [])
      (served {c = new_connection} binding opened binding-serves)

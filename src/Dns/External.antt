-- ===== src/Dns/External.antt =====
-- internal/dnsserver/server.go: the static names of New, and lookupExternalAddress.
use infrastructure_in_a_box.Prelude.{
  ℕ, zero, suc, ◌+◌, List, [], ◌∷◌, ◌++◌, Option, none, some, if◌then◌else◌, length,
}
use infrastructure_in_a_box.Prelude.Text.{Text, bytes, text_discrete, text_eq}
use infrastructure_in_a_box.Prelude.Table.{Table, get}
use infrastructure_in_a_box.Lease.Address.{Addr}
use infrastructure_in_a_box.Dns.Zone.{Zone, is_in, wildcard}

abbrev pub root : Text
root = bytes "."

-- `next_label` is dns.NextLabel: the name from its second label on, or none at the end.
module _ (next_label : Text → Option Text) where
  -- A name with its ancestors, with fuel for them.
  unfoldable pub with_ancestors : ℕ → Text → List Text
  with_ancestors zero name = []
  with_ancestors (suc fuel) name = if text_eq name root then [] else (elim (next_label name) [
    | none ↦ name ∷ []
    | some next ↦ name ∷ with_ancestors fuel next
  ])

  unfoldable pub record_names : Table Text Addr → List Text
  unfolding with_ancestors
  record_names [] = []
  record_names ((name, ip) ∷ records) =
      with_ancestors (length name + 1) name ++ record_names records

  -- The static names that New collects.
  unfoldable pub static_names_of : Text → Table Text Addr → List Text
  unfolding record_names
  static_names_of domain records =
      root ∷ domain ∷ (bytes "ns." ++ domain) ∷ (bytes "gateway." ++ domain) ∷ record_names records

  -- An override: its address and the name that it stands under.
  abbrev pub at_wildcard : Zone → Text → Option (Addr × Text)
  at_wildcard z name = elim (get text_discrete (wildcard name) z.records) [
    | none ↦ none
    | some a ↦ some (a, name)
  ]

  -- The loop to the closest static name above, with fuel for its rounds.
  unfoldable pub climb_static : Zone → ℕ → Text → Option (Addr × Text)
  unfolding get text_discrete
  climb_static z zero name = none
  climb_static z (suc fuel) name = if text_eq name root then none else (elim (next_label name) [
    | none ↦ none
    | some next ↦
        let rest = climb_static z fuel next in
        if is_in next z.static_names then at_wildcard z next else rest
  ])

  -- lookupExternalAddress.
  unfoldable pub lookup_external_address : Zone → Text → Option (Addr × Text)
  unfolding climb_static
  lookup_external_address z name = elim (get text_discrete name z.records) [
    | some a ↦ some (a, name)
    | none ↦ if is_in name z.static_names then none else climb_static z (length name + 1) name
  ]

-- ===== src/Lease/Queries.antt =====
-- internal/lease/manager.go: LookupName, HasName and LookupIP.
use infrastructure_in_a_box.Prelude.{
  ℕ, Bool, true, false, ◌&&◌, ◌||◌, not, List, [], ◌∷◌, ◌++◌, Option, none, some, if◌then◌else◌,
  ◌==◌, length,
}
use infrastructure_in_a_box.Prelude.Text.{
  Text, Unicode, dot, text_eq, text_discrete, to_lower, trim_suffix, has_suffix,
}
use infrastructure_in_a_box.Prelude.Table.{find}
use infrastructure_in_a_box.Names.Hostname.{normalize_hostname}
use infrastructure_in_a_box.Lease.Address.{Addr, addr_discrete, addr_eq, unmap}
use infrastructure_in_a_box.Lease.State.{Lease, expire}
use infrastructure_in_a_box.Lease.Persistence.{is_reserved}
use infrastructure_in_a_box.Lease.Manager.{Manager, expired}

module _ (u : Unicode) where
  unfoldable pub lookup_name_live : Manager → Text → Option Lease
  unfolding normalize_hostname find text_discrete
  lookup_name_live m name =
      let canonical = normalize_hostname u name m.cfg.domain in
      if length canonical == 0 || is_reserved m.reserved canonical
      then none
      else find (λ _ (l : Lease). text_eq l.hostname canonical) m.state.leases

  -- LookupName.
  unfoldable pub lookup_name : ℕ → Manager → Text → Manager × Option Lease
  unfolding expire lookup_name_live
  lookup_name now m name = (expired now m, lookup_name_live (expired now m) name)

  -- The name that HasName looks for: the domain itself, or a name under it.
  unfoldable pub sought_name : Text → Text → Text
  unfolding to_lower trim_suffix normalize_hostname text_discrete
  sought_name domain name =
      if text_eq (to_lower u (trim_suffix name (dot ∷ []))) domain
      then domain ++ (dot ∷ [])
      else normalize_hostname u name domain

  -- The test on a lease: its name is the one sought, or lies below it.
  unfoldable pub names_at_or_below : List Text → Text → Lease → Bool
  unfolding has_suffix text_discrete
  names_at_or_below reserved name l =
      not (length l.hostname == 0 || is_reserved reserved l.hostname)
      && (text_eq l.hostname name || has_suffix l.hostname (dot ∷ name))

  unfoldable pub has_name_live : Manager → Text → Bool
  unfolding sought_name names_at_or_below find
  has_name_live m name =
      let sought = sought_name m.cfg.domain name in
      if length sought == 0
      then false
      else (elim (find (λ _ l. names_at_or_below m.reserved sought l) m.state.leases) [
        | none ↦ false
        | some l ↦ true
      ])

  -- HasName.
  unfoldable pub has_name : ℕ → Manager → Text → Manager × Bool
  unfolding expire has_name_live
  has_name now m name = (expired now m, has_name_live (expired now m) name)

unfoldable pub lookup_ip_live : Manager → Addr → Option Lease
unfolding find addr_discrete
lookup_ip_live m ip = find (λ _ (l : Lease). addr_eq l.ip ip) m.state.leases

-- LookupIP.
unfoldable pub lookup_ip : ℕ → Manager → Addr → Manager × Option Lease
unfolding expire unmap lookup_ip_live
lookup_ip now m ip = (expired now m, lookup_ip_live (expired now m) (unmap ip))

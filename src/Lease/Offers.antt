-- ===== src/Lease/Offers.antt =====
-- internal/lease/manager.go: Offer and OfferWithFallback.
use infrastructure_in_a_box.Prelude.{
  ℕ, ◌+◌, ◌&&◌, not, [], Option, none, some, if◌then◌else◌, ◌==◌, length,
}
use infrastructure_in_a_box.Prelude.Results.{Result, ok, err}
use infrastructure_in_a_box.Prelude.Text.{Text, Unicode, text_discrete}
use infrastructure_in_a_box.Prelude.Table.{get, put}
use infrastructure_in_a_box.Names.Hostname.{normalize_hostname}
use infrastructure_in_a_box.Lease.Address.{
  Addr, addr_discrete, is_valid, unmap, scan, scan_fuel, occupies,
}
use infrastructure_in_a_box.Lease.State.{
  Lease, Config, State, in_pool, expire, occupied, valid_client_id,
}
use infrastructure_in_a_box.Lease.Manager.{
  Error, pool_exhausted, unavailable, Manager, expired, hostname_of, lease_of, offer_of,
}

-- The `default` case of the address switch.
unfoldable pub free_ip : Config → State → Text → Addr → Addr
unfolding occupied unmap in_pool addr_discrete scan
free_ip cfg s client requested =
    let taken = occupied s client in
    if in_pool cfg (unmap requested) && not (occupies taken (unmap requested))
    then unmap requested
    else scan (scan_fuel cfg.pool_end) taken cfg.pool_start cfg.pool_end

unfoldable pub offered_ip : Config → State → Text → Addr → Option Lease → Option Lease → Addr
unfolding free_ip
offered_ip cfg s client requested (some current) previous = current.ip
offered_ip cfg s client requested none (some previous) = previous.ip
offered_ip cfg s client requested none none = free_ip cfg s client requested

module _ (u : Unicode) where
  -- The name of an offer: the client's, or else the previous offer's, the lease's, the fallback.
  unfoldable pub offered_name : Text → Text → Text → Option Lease → Option Lease → Text
  unfolding normalize_hostname
  offered_name domain hostname fallback current (some previous) =
      if length hostname == 0 then previous.hostname else normalize_hostname u hostname domain
  offered_name domain hostname fallback current none =
      if not (length hostname == 0)
      then normalize_hostname u hostname domain
      else if not (length (hostname_of current) == 0)
      then hostname_of current
      else normalize_hostname u fallback domain

  -- OfferWithFallback, after expiry and the test of the client's identity.
  unfoldable pub offer_live : ℕ → Manager → Text → Addr → Text → Text → Manager × Result Error Lease
  unfolding get put text_discrete offered_name offered_ip
  offer_live now m client requested hostname fallback =
      let current = lease_of m.state client in
      let previous = offer_of m.state client in
      let ip = offered_ip m.cfg m.state client requested current previous in
      let offer : Lease = record {
        client_id = client;
        ip = ip;
        hostname = offered_name m.cfg.domain hostname fallback current previous;
        expires_at = now + m.cfg.offer_duration;
      } in
      if not (is_valid ip) then (m, err pool_exhausted) else (
        record m {
          state = record m.state { offers = put text_discrete client offer m.state.offers };
        },
        ok offer,
      )

  -- OfferWithFallback.
  unfoldable pub offer_with_fallback :
      ℕ → Manager → Text → Addr → Text → Text → Manager × Result Error Lease
  unfolding expire valid_client_id offer_live
  offer_with_fallback now m client requested hostname fallback =
      if not (valid_client_id client)
      then (expired now m, err unavailable)
      else offer_live now (expired now m) client requested hostname fallback

  -- Offer.
  unfoldable pub offer : ℕ → Manager → Text → Addr → Text → Manager × Result Error Lease
  unfolding offer_with_fallback
  offer now m client requested hostname = offer_with_fallback now m client requested hostname []

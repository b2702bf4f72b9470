-- ===== src/Lease/Commits.antt =====
-- internal/lease/manager.go: Commit, Release and Decline, which save what they change.
use infrastructure_in_a_box.Prelude.{
  ℕ, ◌+◌, ◌&&◌, ◌||◌, not, List, [], Option, none, some, if◌then◌else◌, ◌==◌, length,
}
use infrastructure_in_a_box.Prelude.Results.{Result, ok, err}
use infrastructure_in_a_box.Prelude.Text.{Text, Unicode, text_eq, text_discrete}
use infrastructure_in_a_box.Prelude.Table.{get, put, erase, find}
use infrastructure_in_a_box.Names.Hostname.{normalize_hostname}
use infrastructure_in_a_box.Lease.Address.{Addr, addr_discrete, unmap, occupies}
use infrastructure_in_a_box.Lease.State.{
  Lease, State, in_pool, expire, occupied, owns, remove, valid_client_id, has_ip,
}
use infrastructure_in_a_box.Lease.Persistence.{Disk, persist, is_reserved}
use infrastructure_in_a_box.Lease.Manager.{
  Error, unavailable, persist_failed, Manager, expired, hostname_of, lease_of, offer_of,
}

-- Manager.publish: the next state is taken over only if it has been saved.
unfoldable pub publish : {A : Type 0} → Disk → Manager → State → A → Manager × Result Error A
unfolding persist
publish disk m next a =
    let (file, failure) = persist m.cfg disk m.file next in
    elim failure [
      | none ↦ (record m { state = next; file = file }, ok a)
      | some stage ↦ (record m { file = file }, err (persist_failed stage))
    ]

-- The name that it gets: none if it is reserved, or held by another client.
unfoldable pub granted_name : List Text → State → Text → Text → Text
unfolding find text_discrete
granted_name reserved s client name =
    if is_reserved reserved name || length name == 0
    then []
    else (elim (find (λ other (l : Lease). not (text_eq other client) && text_eq l.hostname name)
        s.leases) [ none ↦ name | some l ↦ [] ])

-- The state that a commit saves.
unfoldable pub with_lease : State → Text → Lease → State
unfolding put erase text_discrete
with_lease s client l = record s {
  leases = put text_discrete client l s.leases;
  offers = erase text_discrete client s.offers;
}

module _ (u : Unicode) where
  -- The name that a commit asks for: the client's, or else the matching offer's, the lease's, the
  -- fallback.
  unfoldable pub wanted_name : Text → Addr → Text → Text → Option Lease → Option Lease → Text
  unfolding normalize_hostname addr_discrete
  wanted_name domain ip hostname fallback current offered =
      if not (length hostname == 0)
      then normalize_hostname u hostname domain
      else if has_ip ip offered
      then hostname_of offered
      else if not (length (hostname_of current) == 0)
      then hostname_of current
      else normalize_hostname u fallback domain

  -- The lease that a commit writes.
  unfoldable pub committed : ℕ → Manager → Text → Addr → Text → Text → Lease
  unfolding get text_discrete wanted_name granted_name
  committed now m client ip hostname fallback = record {
    client_id = client;
    ip = ip;
    hostname = granted_name m.reserved m.state client (
        wanted_name m.cfg.domain ip hostname fallback (lease_of m.state client)
          (offer_of m.state client));
    expires_at = now + m.cfg.lease_duration;
  }

  -- CommitWithFallback, after expiry, on an IPv4 address taken out of its IPv6 form.
  unfoldable pub commit_live :
      ℕ → Disk → Manager → Text → Addr → Text → Text → Manager × Result Error Lease
  unfolding valid_client_id in_pool occupied addr_discrete committed with_lease publish
  commit_live now disk m client ip hostname fallback =
      if not (valid_client_id client)
        || not (in_pool m.cfg ip)
        || occupies (occupied m.state client) ip
      then (m, err unavailable)
      else (let l = committed now m client ip hostname fallback in
          publish disk m (with_lease m.state client l) l)

  -- CommitWithFallback.
  unfoldable pub commit_with_fallback :
      ℕ → Disk → Manager → Text → Addr → Text → Text → Manager × Result Error Lease
  unfolding expire unmap commit_live
  commit_with_fallback now disk m client ip hostname fallback =
      commit_live now disk (expired now m) client (unmap ip) hostname fallback

  -- Commit.
  unfoldable pub commit : ℕ → Disk → Manager → Text → Addr → Text → Manager × Result Error Lease
  unfolding commit_with_fallback
  commit now disk m client ip hostname = commit_with_fallback now disk m client ip hostname []

unfoldable pub release_live : Disk → Manager → Text → Addr → Manager × Result Error (Unit {0})
unfolding owns remove publish
release_live disk m client ip =
    if not (owns m.state client ip)
    then (m, err unavailable)
    else publish disk m (remove client ip m.state) tt

-- Release.
unfoldable pub release : ℕ → Disk → Manager → Text → Addr → Manager × Result Error (Unit {0})
unfolding expire unmap release_live
release now disk m client ip = release_live disk (expired now m) client (unmap ip)

-- The address is set aside for the decline duration.
unfoldable pub quarantine : ℕ → Addr → State → State
unfolding put addr_discrete
quarantine until ip s = record s { declined = put addr_discrete ip until s.declined }

unfoldable pub decline_live : ℕ → Disk → Manager → Text → Addr → Manager × Result Error (Unit {0})
unfolding owns remove publish quarantine
decline_live now disk m client ip =
    if not (owns m.state client ip)
    then (m, err unavailable)
    else publish disk m (quarantine (now + m.cfg.decline_duration) ip (remove client ip m.state)) tt

-- Decline.
unfoldable pub decline : ℕ → Disk → Manager → Text → Addr → Manager × Result Error (Unit {0})
unfolding expire unmap decline_live
decline now disk m client ip = decline_live now disk (expired now m) client (unmap ip)

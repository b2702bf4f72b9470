-- ===== src/Lease/Valid.antt =====
-- The invariant of a lease manager: offers and queries keep it.
use infrastructure_in_a_box.Prelude.{
  ℕ, ◌+◌, ◌^◌, ◌≤◌, ◌<◌, ◌≡◌, refl, inl, inr, true, ◌&&◌, not, Option, none, some, arith,
  Bool-cases,
}
use infrastructure_in_a_box.Prelude.Text.{Text, Unicode}
use infrastructure_in_a_box.Names.Labels.{valid_dns_name}
use infrastructure_in_a_box.Names.Hostname.{normalize_hostname, normalize_hostname_result}
use infrastructure_in_a_box.Names.Canonical.{canonical_domain_fixed}
use infrastructure_in_a_box.Lease.Address.{
  Addr, invalid, v4, v6, is_valid, addr_le, unmap, occupies, scan, scan_fuel,
}
use infrastructure_in_a_box.Lease.State.{Lease, Config, in_pool, occupied, valid_client_id}
use infrastructure_in_a_box.Lease.Manager.{Manager, expired, lease_of, offer_of}
use infrastructure_in_a_box.Lease.Offers.{
  offered_name, free_ip, offered_ip, offer_live, offer_with_fallback,
}
use infrastructure_in_a_box.Lease.Pool.{Found, lowest, full, scan_pool-Found}
use infrastructure_in_a_box.Lease.Invariant.{IsSound, Holds, IsName, expire-IsSound}
use infrastructure_in_a_box.Lease.Grants.{IsClear, IsGrant, occupied-IsClear, with_offer-IsSound}

-- What newManager has checked of the configuration.
pub record IsConfig (cfg : Config) : Type 0 where
  pub first : ℕ
  pub last : ℕ
  pub starts : cfg.pool_start ≡ v4 first
  pub ends : cfg.pool_end ≡ v4 last
  pub ordered : first ≤ last
  pub range : last < 2 ^ 32
  pub domain : valid_dns_name cfg.domain ≡ true

pub record IsValid (m : Manager) : Type 0 where
  pub config : IsConfig m.cfg
  pub sound : IsSound m.cfg m.reserved m.state

-- A normalized hostname is no name or a valid one.
pub normalize_hostname-IsName :
    (u : Unicode) (cfg : Config) (h : Text)
    → IsConfig cfg
    → IsName cfg.domain (normalize_hostname u h cfg.domain)
normalize_hostname-IsName u cfg h c =
    rw (canonical_domain_fixed u cfg.domain c.domain) at (normalize_hostname_result u h cfg.domain)

-- An address of the pool, by number.
pub in_pool_lem :
    (cfg : Config) (c : IsConfig cfg) (j : ℕ) → c.first ≤ j → j ≤ c.last → in_pool cfg (v4 j) ≡ true
unfolding in_pool addr_le
in_pool_lem cfg c j h k = rw (c.starts, c.ends) (ground arith)

pub in_pool-number :
    (cfg : Config) (c : IsConfig cfg) (ip : Addr)
    → in_pool cfg ip ≡ true
    → (k : ℕ) × (ip ≡ v4 k) × (c.first ≤ k) × (k ≤ c.last)
unfolding in_pool addr_le
in_pool-number cfg c invalid h = cc
in_pool-number cfg c (v4 k) h = ground (arith, c.starts, c.ends)
in_pool-number cfg c (v6 k zone) h = cc

pub expired-IsValid : (now : ℕ) (m : Manager) → IsValid m → IsValid (expired now m)
expired-IsValid now m v = record { config = v.config; sound = expire-IsSound now v.sound }

module _ (u : Unicode) (m : Manager) (v : IsValid m) (client : Text) where
  -- The name of an offer is proper where the names of the lease and the previous offer are.
  offered_name-IsName :
      (h f : Text) (current previous : Option Lease)
      → ((l : Lease) → current ≡ some l → IsName m.cfg.domain l.hostname)
      → ((l : Lease) → previous ≡ some l → IsName m.cfg.domain l.hostname)
      → IsName m.cfg.domain (offered_name u m.cfg.domain h f current previous)
  unfolding offered_name
  offered_name-IsName h f current (some p) a b =
      ground (arith, b p refl, normalize_hostname-IsName u m.cfg h v.config)
  offered_name-IsName h f (some l) none a b = ground (
    arith,
    a l refl,
    normalize_hostname-IsName u m.cfg h v.config,
    normalize_hostname-IsName u m.cfg f v.config,
  )
  offered_name-IsName h f none none a b = ground (
    arith,
    normalize_hostname-IsName u m.cfg h v.config,
    normalize_hostname-IsName u m.cfg f v.config,
  )

  pub held-IsName : (l : Lease) → Holds m.state client l → IsName m.cfg.domain l.hostname
  held-IsName l h = let (_, _, n) = v.sound.entry client l h in n

-- An address that a client may be given.
pub record IsGood (m : Manager) (client : Text) (ip : Addr) : Type 0 where
  pub inside : in_pool m.cfg ip ≡ true
  pub clear : IsClear m.state client ip

module _ (m : Manager) (v : IsValid m) (client : Text) where
  -- A client keeps what it holds.
  pub held-IsClear : (l : Lease) → Holds m.state client l → IsClear m.state client l.ip
  held-IsClear l h = record {
    unheld = λ d k g e. v.sound.exclusive d client k l g h e;
    kept = v.sound.free client l h;
  }

  -- So an address that it holds is good for it.
  pub held-IsGood : (l : Lease) → Holds m.state client l → IsGood m client l.ip
  held-IsGood l h =
      let (_, inside, _) = v.sound.entry client l h in
      record { inside = inside; clear = held-IsClear l h }

  scan-IsGood :
      (r : Addr)
      → Found (occupied m.state client) v.config.first v.config.last r
      → is_valid r ≡ true
      → IsGood m client r
  scan-IsGood r (lowest j e a b free below) h = rw e (record {
    inside = in_pool_lem m.cfg v.config j a b;
    clear = occupied-IsClear m.state client (v4 j) free;
  })
  scan-IsGood r (full e all) h = cc

  pub pool_scan :
      Found
        (occupied m.state client)
        v.config.first
        v.config.last
        (scan (scan_fuel m.cfg.pool_end) (occupied m.state client) m.cfg.pool_start m.cfg.pool_end)
  pool_scan =
      rw (v.config.starts, v.config.ends)
        (scan_pool-Found (occupied m.state client) v.config.first v.config.last v.config.ordered
          v.config.range)

  free_ip-IsGood :
      (requested : Addr)
      → is_valid (free_ip m.cfg m.state client requested) ≡ true
      → IsGood m client (free_ip m.cfg m.state client requested)
  unfolding free_ip
  free_ip-IsGood requested h =
      elim (Bool-cases (
        in_pool m.cfg (unmap requested)
        && not (occupies (occupied m.state client) (unmap requested)))) [
          | inl asked ↦ rw asked (record {
            inside = ground arith;
            clear = occupied-IsClear m.state client (unmap requested) (ground arith);
          })
          | inr other ↦ rw other (scan-IsGood _ pool_scan (rw other at h))
        ]

  -- Whatever address an offer picks, the client may be given it.
  pub offered_ip-IsGood :
      (requested : Addr) (current previous : Option Lease)
      → lease_of m.state client ≡ current
      → offer_of m.state client ≡ previous
      → is_valid (offered_ip m.cfg m.state client requested current previous) ≡ true
      → IsGood m client (offered_ip m.cfg m.state client requested current previous)
  unfolding offered_ip
  offered_ip-IsGood requested (some l) previous a b h = held-IsGood l (inl a)
  offered_ip-IsGood requested none (some p) a b h = held-IsGood p (inr b)
  offered_ip-IsGood requested none none a b h = free_ip-IsGood requested h

-- What `offer_live` writes.
abbrev pub new_offer : Unicode → ℕ → Manager → Text → Addr → Text → Text → Lease
new_offer u now m client requested hostname fallback = record {
  client_id = client;
  ip =
      offered_ip m.cfg m.state client requested (lease_of m.state client) (offer_of m.state client);
  hostname =
      offered_name u m.cfg.domain hostname fallback (lease_of m.state client)
        (offer_of m.state client);
  expires_at = now + m.cfg.offer_duration;
}

offer_live-IsGrant :
    (u : Unicode) (now : ℕ) (m : Manager) (client : Text) (requested : Addr)
    (hostname fallback : Text)
    → IsValid m
    → is_valid (new_offer u now m client requested hostname fallback).ip ≡ true
    → IsGrant m.cfg m.state client (new_offer u now m client requested hostname fallback)
offer_live-IsGrant u now m client requested hostname fallback v h =
    let current = lease_of m.state client in
    let previous = offer_of m.state client in
    let good = offered_ip-IsGood m v client requested current previous refl refl h in
    record {
      client = refl;
      inside = good.inside;
      name =
          offered_name-IsName u m v client hostname fallback current previous
            (λ l e. held-IsName u m v client l (inl e)) (λ l e. held-IsName u m v client l (inr e));
      clear = good.clear;
    }

pub offer_live-IsValid :
    (u : Unicode) (now : ℕ) (m : Manager) (client : Text) (requested : Addr)
    (hostname fallback : Text)
    → IsValid m
    → IsValid (offer_live u now m client requested hostname fallback).0
unfolding offer_live
offer_live-IsValid u now m client requested hostname fallback v =
    let o = new_offer u now m client requested hostname fallback in
    elim (Bool-cases (is_valid o.ip)) [
      | inl good ↦ rw good (record {
        config = v.config;
        sound =
            with_offer-IsSound m.state client o v.sound
              (offer_live-IsGrant u now m client requested hostname fallback v good);
      })
      | inr bad ↦ rw bad v
    ]

-- An offer keeps the manager valid, whatever it answers.
pub offer_with_fallback-IsValid :
    (u : Unicode) (now : ℕ) (m : Manager) (client : Text) (requested : Addr)
    (hostname fallback : Text)
    → IsValid m
    → IsValid (offer_with_fallback u now m client requested hostname fallback).0
unfolding offer_with_fallback
offer_with_fallback-IsValid u now m client requested hostname fallback v =
    let e = expired-IsValid now m v in
    elim (Bool-cases (valid_client_id client)) [
      | inl good ↦
          rw good (offer_live-IsValid u now (expired now m) client requested hostname fallback e)
      | inr bad ↦ rw bad e
    ]

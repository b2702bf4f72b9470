-- ===== src/Lease/Answers.antt =====
-- What the manager's methods answer, on every branch.
use infrastructure_in_a_box.Prelude.{
  ℕ, ◌+◌, ◌≤◌, ◌≡◌, refl, ◌↔◌, inl, inr, true, false, ◌&&◌, not, Option, none, some, arith,
  Bool-cases,
}
use infrastructure_in_a_box.Prelude.Results.{ok, err}
use infrastructure_in_a_box.Prelude.Text.{Text, Unicode, text_discrete}
use infrastructure_in_a_box.Prelude.Table.{Table, get, put, get-put}
use infrastructure_in_a_box.Lease.Address.{Addr, v4, is_valid, unmap, occupies}
use infrastructure_in_a_box.Lease.State.{Lease, State, in_pool, occupied, valid_client_id, expire}
use infrastructure_in_a_box.Lease.Manager.{pool_exhausted, Manager, expired, lease_of, offer_of}
use infrastructure_in_a_box.Lease.Offers.{free_ip, offered_ip, offer_live, offer_with_fallback}
use infrastructure_in_a_box.Lease.Pool.{Found, lowest, full}
use infrastructure_in_a_box.Lease.Invariant.{Holds}
use infrastructure_in_a_box.Lease.Grants.{IsClear, occupied-not-IsClear}
use infrastructure_in_a_box.Lease.Valid.{
  IsValid, IsGood, expired-IsValid, pool_scan, in_pool-number, offered_ip-IsGood, held-IsGood,
  new_offer,
}

module _ (m : Manager) (v : IsValid m) (client : Text) where
  -- No address of the pool is clear for the client.
  abbrev pub IsExhausted : Type 0
  IsExhausted = (k : ℕ) → v.config.first ≤ k → k ≤ v.config.last → ¬ IsClear m.state client (v4 k)

  -- Where some address is good for the client, the pool is not exhausted.
  good-not_exhausted : (ip : Addr) → IsGood m client ip → ¬ IsExhausted
  good-not_exhausted ip g none_clear =
      let (k, e, a, b) = in_pool-number m.cfg v.config ip g.inside in
      none_clear k a b (rw e at g.clear)

  -- The address that a client without a lease or an offer is offered: none on a full pool only.
  free_ip-exhausted :
      (requested : Addr) → is_valid (free_ip m.cfg m.state client requested) ≡ false → IsExhausted
  unfolding free_ip
  free_ip-exhausted requested h =
      elim (Bool-cases (
        in_pool m.cfg (unmap requested)
        && not (occupies (occupied m.state client) (unmap requested)))) [
          | inl asked ↦
              let (k, e, _, _) = in_pool-number m.cfg v.config (unmap requested) (ground arith) in
              let never : is_valid (unmap requested) ≡ false = rw asked at h in cc (rw e at never)
          | inr other ↦ from_scan _ (pool_scan m v client) (rw other at h)
        ]
    where
      from_scan :
          (r : Addr)
          → Found (occupied m.state client) v.config.first v.config.last r
          → is_valid r ≡ false
          → IsExhausted
      from_scan r (lowest j e a b c d) h = cc
      from_scan r (full e all) h = λ k a b.
          occupied-not-IsClear m.state client (v4 k) v.sound.leases_map v.sound.offers_map
            (all k a b)

  offered_ip-exhausted :
      (requested : Addr) (current previous : Option Lease)
      → lease_of m.state client ≡ current
      → offer_of m.state client ≡ previous
      → is_valid (offered_ip m.cfg m.state client requested current previous) ≡ false
      → IsExhausted
  unfolding offered_ip
  offered_ip-exhausted requested (some l) previous a b h = held_valid l (inl a) h
    where
      held_valid : (l : Lease) → Holds m.state client l → is_valid l.ip ≡ false → IsExhausted
      held_valid l q h =
          let g = held-IsGood m v client l q in
          let (k, e, _, _) = in_pool-number m.cfg v.config l.ip g.inside in cc (rw e at h)
  offered_ip-exhausted requested none (some p) a b h =
      let g = held-IsGood m v client p (inr b) in
      let (k, e, _, _) = in_pool-number m.cfg v.config p.ip g.inside in cc (rw e at h)
  offered_ip-exhausted requested none none a b h = free_ip-exhausted requested h

get-put_self :
    (c : Text) (l : Lease) (t : Table Text Lease)
    → get text_discrete c (put text_discrete c l t) ≡ some l
get-put_self c l t = ground (arith, get-put text_discrete c c l t)

-- The address of the next offer.
abbrev pub next_ip : Manager → Text → Addr → Addr
next_ip m client requested =
    offered_ip m.cfg m.state client requested (lease_of m.state client) (offer_of m.state client)

module _ (u : Unicode) (now : ℕ) (m : Manager) (client : Text) (requested : Addr)
    (hostname fallback : Text) (v : IsValid m) where
  -- An offer that is made has passed both tests.
  pub offer_ok :
      (l : Lease)
      → (offer_with_fallback u now m client requested hostname fallback).1 ≡ ok l
      → (valid_client_id client ≡ true)
        × (is_valid (next_ip (expired now m) client requested) ≡ true)
        × (l ≡ new_offer u now (expired now m) client requested hostname fallback)
  unfolding offer_with_fallback offer_live
  offer_ok l e = ground arith

  -- On a valid manager a client with a proper identity is refused for an exhausted pool exactly
  -- when every address of the pool is leased or offered to another client or set aside: the scan of
  -- the pool misses none.
  pub offer_exhausted_iff :
      valid_client_id client ≡ true
      → ((offer_with_fallback u now m client requested hostname fallback).1 ≡ err pool_exhausted)
        ↔ IsExhausted (expired now m) (expired-IsValid now m v) client
  unfolding offer_with_fallback offer_live
  offer_exhausted_iff good = (there, back)
    where
      w : IsValid (expired now m)
      w = expired-IsValid now m v

      there :
          (offer_with_fallback u now m client requested hostname fallback).1 ≡ err pool_exhausted
          → IsExhausted (expired now m) w client
      there e = offered_ip-exhausted (expired now m) w client requested _ _ refl refl (ground arith)

      back :
          IsExhausted (expired now m) w client
          → (offer_with_fallback u now m client requested hostname fallback).1 ≡ err pool_exhausted
      back none_clear = elim (Bool-cases (is_valid (next_ip (expired now m) client requested))) [
        | inl usable ↦ absurd (
            good-not_exhausted (expired now m) w client _
              (offered_ip-IsGood (expired now m) w client requested _ _ refl refl usable)
              none_clear)
        | inr unusable ↦ rw (good, unusable)
      ]

  -- An offer that a valid manager makes has an address of the pool that is clear for the client,
  -- stands for the offer duration, is the client's offer from then on, and changes no lease.
  pub offer_granted :
      (l : Lease)
      → (offer_with_fallback u now m client requested hostname fallback).1 ≡ ok l
      → let next = (offer_with_fallback u now m client requested hostname fallback).0 in
        IsGood (expired now m) client l.ip
        × (l.client_id ≡ client)
        × (l.expires_at ≡ now + m.cfg.offer_duration)
        × (offer_of next.state client ≡ some l)
        × (next.state.leases ≡ (expire now m.state).leases)
  unfolding offer_with_fallback offer_live
  offer_granted l e =
      let (good, usable, q) = offer_ok l e in
      rw (good, usable, q)
        (
          offered_ip-IsGood (expired now m) (expired-IsValid now m v) client requested _ _ refl refl
              usable,
          refl,
          refl,
          get-put_self client (new_offer u now (expired now m) client requested hostname fallback)
              (expire now m.state).offers,
          refl,
        )

  -- The address of an offer: the client's lease's, or else its previous offer's, or else the
  -- requested one if that is good.
  pub offer_prefers :
      (l : Lease)
      → (offer_with_fallback u now m client requested hostname fallback).1 ≡ ok l
      → let s = expire now m.state in
        ((k : Lease) → lease_of s client ≡ some k → l.ip ≡ k.ip)
        × ((k : Lease) → lease_of s client ≡ none → offer_of s client ≡ some k → l.ip ≡ k.ip)
        × (lease_of s client ≡ none
            → offer_of s client ≡ none
            → IsGood (expired now m) client (unmap requested)
            → l.ip ≡ unmap requested)
  unfolding offered_ip free_ip
  offer_prefers l e =
      let (_, _, q) = offer_ok l e in
      rw q (λ k h. ground arith, λ k h o. ground arith, λ h o g. rw (h, o, offered_ip) (asked g))
    where
      s : State
      s = expire now m.state

      asked :
          IsGood (expired now m) client (unmap requested)
          → free_ip m.cfg s client requested ≡ unmap requested
      asked g = elim (Bool-cases (occupies (occupied s client) (unmap requested))) [
        | inl taken ↦
            let w = expired-IsValid now m v in
            absurd (
              occupied-not-IsClear s client (unmap requested) w.sound.leases_map w.sound.offers_map
                taken g.clear)
        | inr idle ↦ rw (g.inside, idle) refl
      ]

  -- An offer of a valid manager to a client with neither a live lease nor a live offer has the
  -- address that the client requests, if that lies in the pool and is not held by another client
  -- nor set aside.
  pub offer_gives_requested :
      (l : Lease)
      → (offer_with_fallback u now m client requested hostname fallback).1 ≡ ok l
      → lease_of (expire now m.state) client ≡ none
      → offer_of (expire now m.state) client ≡ none
      → IsGood (expired now m) client (unmap requested)
      → l.ip ≡ unmap requested
  offer_gives_requested l e = (offer_prefers l e).2

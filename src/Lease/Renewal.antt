-- ===== src/Lease/Renewal.antt =====
-- A client keeps its address from one method call to the next.
use infrastructure_in_a_box.Prelude.{
  ℕ, ◌<◌, ◌≡◌, refl, sym, ap, ◌∙◌, ◌⊎◌, inl, inr, true, none, some, arith, Bool-cases, Option-cases,
}
use infrastructure_in_a_box.Prelude.Results.{Result, ok}
use infrastructure_in_a_box.Prelude.Text.{Text, Unicode, text_discrete}
use infrastructure_in_a_box.Prelude.Table.{Table, get, retain, get-retain, IsMap}
use infrastructure_in_a_box.Lease.Address.{Addr, is_valid}
use infrastructure_in_a_box.Lease.State.{Lease, expire, after, valid_client_id}
use infrastructure_in_a_box.Lease.Persistence.{Disk}
use infrastructure_in_a_box.Lease.Manager.{Manager, Error, expired, lease_of, offer_of}
use infrastructure_in_a_box.Lease.Offers.{offered_ip, offer_live, offer_with_fallback}
use infrastructure_in_a_box.Lease.Commits.{commit_with_fallback}
use infrastructure_in_a_box.Lease.Invariant.{get-retain-some}
use infrastructure_in_a_box.Lease.Valid.{
  IsValid, expired-IsValid, in_pool-number, held-IsGood, new_offer, offer_with_fallback-IsValid,
}
use infrastructure_in_a_box.Lease.Runs.{commits, perform, perform-IsValid}
use infrastructure_in_a_box.Lease.Effects.{commit_granted, commit_unavailable_iff}
use infrastructure_in_a_box.Lease.Answers.{next_ip, offer_ok, offer_prefers, offer_granted}

-- An entry that is not over survives expiry.
stays :
    (now : ℕ) (t : Table Text Lease) (c : Text) (l : Lease)
    → IsMap text_discrete t
    → get text_discrete c t ≡ some l
    → now < l.expires_at
    → get text_discrete c (retain (λ (k : Lease). after now k.expires_at) t) ≡ some l
stays now t c l h e alive =
    rw (get-retain text_discrete (λ (k : Lease). after now k.expires_at) c t h, e) (ground arith)

module _ (u : Unicode) (now : ℕ) (m : Manager) (client : Text) (requested : Addr)
    (hostname fallback : Text) (v : IsValid m) (good : valid_client_id client ≡ true) where
  -- The answer to a client whose next address is usable.
  answers :
      is_valid (next_ip (expired now m) client requested) ≡ true
      → (offer_with_fallback u now m client requested hostname fallback).1
        ≡ ok (new_offer u now (expired now m) client requested hostname fallback)
  unfolding offer_with_fallback offer_live
  answers usable = rw (good, usable) refl

  held_valid :
      (k : Lease)
      → (lease_of (expire now m.state) client ≡ some k)
        ⊎ (offer_of (expire now m.state) client ≡ some k)
      → is_valid k.ip ≡ true
  held_valid k h =
      let w = expired-IsValid now m v in
      let g = held-IsGood (expired now m) w client k h in
      let (i, e, _, _) = in_pool-number m.cfg w.config k.ip g.inside in rw e refl

  -- A client with a lease or an offer that is not over is offered its address.
  offers_held :
      (k : Lease)
      → (lease_of (expire now m.state) client ≡ some k)
        ⊎ ((lease_of (expire now m.state) client ≡ none)
            × (offer_of (expire now m.state) client ≡ some k))
      → (l : Lease) × ((offer_with_fallback u now m client requested hostname fallback).1 ≡ ok l)
        × (l.ip ≡ k.ip)
  unfolding offered_ip
  offers_held k (inl leased) =
      let e : next_ip (expired now m) client requested ≡ k.ip = rw (leased, offered_ip) refl in
      let answer = answers (ap is_valid e ∙ held_valid k (inl leased)) in
      (new_offer u now (expired now m) client requested hostname fallback, answer, e)
  offers_held k (inr (unleased, offered)) =
      let e : next_ip (expired now m) client requested ≡ k.ip =
        rw (unleased, offered, offered_ip) refl in
      let answer = answers (ap is_valid e ∙ held_valid k (inr offered)) in
      (new_offer u now (expired now m) client requested hostname fallback, answer, e)

module _ (u : Unicode) (now : ℕ) (disk : Disk) (m : Manager) (client : Text) (ip : Addr)
    (hostname fallback : Text) (v : IsValid m) (k : Lease) (later : ℕ)
    (alive : later < k.expires_at) (ip' : Addr) (hostname' fallback' : Text) where
  after_commit :
      (commit_with_fallback u now disk m client ip hostname fallback).1 ≡ ok k
      → (l : Lease) × ((offer_with_fallback u later
            (commit_with_fallback u now disk m client ip hostname fallback).0
            client
            ip'
            hostname'
            fallback').1
          ≡ ok l)
        × (l.ip ≡ k.ip)
  unfolding perform expire
  after_commit e =
      let (_, _, c) = commit_granted u now disk m client ip hostname fallback k e in
      let n : Manager = (commit_with_fallback u now disk m client ip hostname fallback).0 in
      let w : IsValid n = perform-IsValid u now disk m (commits client ip hostname fallback) v in
      offers_held u later n client ip' hostname' fallback' w proper k
        (inl (stays later n.state.leases client k w.sound.leases_map c.leased alive))
    where
      proper : valid_client_id client ≡ true
      proper = elim (Bool-cases (valid_client_id client)) [
        | inl good ↦ good
        | inr bad ↦
            cc ((commit_unavailable_iff u now disk m client ip hostname fallback v).1 (inl bad), e)
      ]

  after_offer :
      (offer_with_fallback u now m client ip hostname fallback).1 ≡ ok k
      → (l : Lease) × ((offer_with_fallback u later
            (offer_with_fallback u now m client ip hostname fallback).0
            client
            ip'
            hostname'
            fallback').1
          ≡ ok l)
        × (l.ip ≡ k.ip)
  unfolding expire
  after_offer e =
      let (good, _, _) = offer_ok u now m client ip hostname fallback v k e in
      let (_, _, _, offered, leases) = offer_granted u now m client ip hostname fallback v k e in
      let n : Manager = (offer_with_fallback u now m client ip hostname fallback).0 in
      let w : IsValid n = offer_with_fallback-IsValid u now m client ip hostname fallback v in
      let kept = stays later n.state.offers client k w.sound.offers_map offered alive in
      elim (Option-cases (lease_of (expire later n.state) client)) [
        | inl unleased ↦
            offers_held u later n client ip' hostname' fallback' w good k (inr (unleased, kept))
        | inr (j, leased) ↦
            let old =
              (get-retain-some text_discrete (λ (i : Lease). after later i.expires_at)
                n.state.leases client j w.sound.leases_map leased).0 in
            let before = sym (ap (get text_discrete client) leases) ∙ old in
            let same = (offer_prefers u now m client ip hostname fallback v k e).0 j before in
            let (l, answer, q) =
              offers_held u later n client ip' hostname' fallback' w good j (inl leased) in
            (l, answer, q ∙ sym same)
      ]

  -- A client that was just granted a lease or made an offer by a valid manager is offered the same
  -- address again, whatever it requests, until that lease or offer is over.
  pub offer_keeps_address :
      (n : Manager)
      → ((commit_with_fallback u now disk m client ip hostname fallback ≡ (n, ok k))
          ⊎ (offer_with_fallback u now m client ip hostname fallback ≡ (n, ok k)))
      → (l : Lease) × ((offer_with_fallback u later n client ip' hostname' fallback').1 ≡ ok l)
        × (l.ip ≡ k.ip)
  offer_keeps_address n (inl e) =
      rw (ap (λ (p : Manager × Result Error Lease). p.0) e) at
        (after_commit (ap (λ (p : Manager × Result Error Lease). p.1) e))
  offer_keeps_address n (inr e) =
      rw (ap (λ (p : Manager × Result Error Lease). p.0) e) at
        (after_offer (ap (λ (p : Manager × Result Error Lease). p.1) e))

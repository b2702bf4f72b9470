-- ===== src/Lease/Effects.antt =====
-- What Commit, Release and Decline answer and change, and what LookupIP finds.
use infrastructure_in_a_box.Prelude.{
  ℕ, ◌+◌, ◌≡◌, refl, ◌≢◌, ◌↔◌, ◌⊎◌, inl, inr, false, ◌||◌, not, none, some, if◌then◌else◌, ◌==◌,
  length, arith, Bool-cases, Option-cases,
}
use infrastructure_in_a_box.Prelude.Results.{Result, ok, err}
use infrastructure_in_a_box.Prelude.Text.{Text, Unicode, text_discrete}
use infrastructure_in_a_box.Prelude.Table.{get-put, get-erase}
use infrastructure_in_a_box.Lease.Address.{Addr, unmap, occupies}
use infrastructure_in_a_box.Lease.State.{
  Lease, State, in_pool, occupied, valid_client_id, expire, remove,
}
use infrastructure_in_a_box.Lease.Persistence.{Disk, Stage, persist, saved, to_saved}
use infrastructure_in_a_box.Lease.Manager.{
  Error, unavailable, persist_failed, Manager, expired, lease_of, offer_of,
}
use infrastructure_in_a_box.Lease.Commits.{
  publish, committed, with_lease, commit_live, commit_with_fallback, release_live, release,
  quarantine, decline_live, decline,
}
use infrastructure_in_a_box.Lease.Grants.{occupied-IsClear, occupied-not-IsClear}
use infrastructure_in_a_box.Lease.Valid.{IsValid, IsGood, expired-IsValid}

-- What `publish` comes to: the new state and the file that holds it, or all as it was.
data Published {A : Type 0} (m : Manager) (next : State) (a : A) (p : Manager × Result Error A)
    : Type 0 where
  published :
      p.1 ≡ ok a
      → p.0.state ≡ next
      → p.0.file ≡ (if length m.cfg.file == 0 then m.file else saved (to_saved next))
      → Published m next a p
  failed :
      (stage : Stage)
      → p.1 ≡ err (persist_failed stage)
      → p.0.state ≡ m.state
      → p.0.file ≡ m.file
      → Published m next a p

publish-Published :
    {A : Type 0} (disk : Disk) (m : Manager) (next : State) (a : A)
    → Published m next a (publish disk m next a)
unfolding publish persist
publish-Published disk m next a = elim (Bool-cases (length m.cfg.file == 0)) [
  | inl unset ↦ published (ground arith) (ground arith) (ground arith)
  | inr set ↦ elim (Option-cases disk.failure) [
    | inl e ↦ published (ground arith) (ground arith) (ground arith)
    | inr (stage, e) ↦ failed stage (ground arith) (ground arith) (ground arith)
  ]
]

-- The address test of a commit is the specification's.
grantable_iff :
    (m : Manager) (client : Text) (ip : Addr) (v : IsValid m)
    → ((not (in_pool m.cfg ip) || occupies (occupied m.state client) ip) ≡ false)
      ↔ IsGood m client ip
grantable_iff m client ip v = (there, back)
  where
    there :
        (not (in_pool m.cfg ip) || occupies (occupied m.state client) ip) ≡ false
        → IsGood m client ip
    there h = record {
      inside = ground arith;
      clear = occupied-IsClear m.state client ip (ground arith);
    }

    back :
        IsGood m client ip
        → (not (in_pool m.cfg ip) || occupies (occupied m.state client) ip) ≡ false
    back g = elim (Bool-cases (occupies (occupied m.state client) ip)) [
      | inl taken ↦ absurd (
          occupied-not-IsClear m.state client ip v.sound.leases_map v.sound.offers_map taken
            g.clear)
      | inr idle ↦ rw (g.inside, idle) refl
    ]

module _ (u : Unicode) (now : ℕ) (disk : Disk) (m : Manager) (client : Text) (ip : Addr)
    (hostname fallback : Text) (v : IsValid m) where
  -- A commit on a valid manager answers "unavailable" exactly when the client's identity is not
  -- proper, or the address is outside the pool, held by another client or set aside.
  pub commit_unavailable_iff :
      ((commit_with_fallback u now disk m client ip hostname fallback).1 ≡ err unavailable)
      ↔ ((valid_client_id client ≡ false) ⊎ (¬ IsGood (expired now m) client (unmap ip)))
  unfolding commit_with_fallback commit_live
  commit_unavailable_iff = (there, back)
    where
      w : IsValid (expired now m)
      w = expired-IsValid now m v

      l : Lease
      l = committed u now (expired now m) client (unmap ip) hostname fallback

      never :
          (publish disk (expired now m) (with_lease (expire now m.state) client l) l).1
          ≢ err unavailable
      never e =
          elim (publish-Published disk (expired now m) (with_lease (expire now m.state) client l)
            l) [ published a b c ↦ cc | failed stage a b c ↦ cc ]

      there :
          (commit_with_fallback u now disk m client ip hostname fallback).1 ≡ err unavailable
          → (valid_client_id client ≡ false) ⊎ (¬ IsGood (expired now m) client (unmap ip))
      there e = elim (Bool-cases (valid_client_id client)) [
        | inr bad ↦ inl bad
        | inl good ↦
            inr
              (λ g. never (rw (good, (grantable_iff (expired now m) client (unmap ip) w).1 g) at e))
      ]

      back :
          (valid_client_id client ≡ false) ⊎ (¬ IsGood (expired now m) client (unmap ip))
          → (commit_with_fallback u now disk m client ip hostname fallback).1 ≡ err unavailable
      back (inl bad) = rw bad
      back (inr other) =
          elim (Bool-cases (
            not (in_pool m.cfg (unmap ip))
            || occupies (occupied (expire now m.state) client) (unmap ip))) [
              | inl refused ↦ ground arith
              | inr allowed ↦
                  absurd (other ((grantable_iff (expired now m) client (unmap ip) w).0 allowed))
            ]

-- What a commit of `l` makes of a manager: the client has the lease, its offer is gone, what other
-- clients hold and what is set aside stays, and the file, where there is one, holds the new state.
pub record IsCommitted (m next : Manager) (client : Text) (l : Lease) : Type 0 where
  pub leased : lease_of next.state client ≡ some l
  pub offer_gone : offer_of next.state client ≡ none
  pub lease_kept : (d : Text) → d ≢ client → lease_of next.state d ≡ lease_of m.state d
  pub offer_kept : (d : Text) → d ≢ client → offer_of next.state d ≡ offer_of m.state d
  pub declined_kept : next.state.declined ≡ m.state.declined
  pub stored : next.file ≡ (if length m.cfg.file == 0 then m.file else saved (to_saved next.state))

with_lease-IsCommitted :
    (m : Manager) (client : Text) (w l : Lease) (p : Manager × Result Error Lease)
    → Published m (with_lease m.state client w) w p
    → p.1 ≡ ok l
    → (l ≡ w) × IsCommitted m p.0 client l
unfolding with_lease
with_lease-IsCommitted m client w l p (failed stage a b c) e = cc
with_lease-IsCommitted m client w l p (published a b c) e =
    let q : l ≡ w = cc in
    (
      q,
      rw (q, b)
          (record {
            leased = ground (arith, get-put text_discrete client client w m.state.leases);
            offer_gone = ground (arith, get-erase text_discrete client client m.state.offers);
            lease_kept = λ d n. ground (arith, get-put text_discrete client d w m.state.leases);
            offer_kept = λ d n. ground (arith, get-erase text_discrete client d m.state.offers);
            declined_kept = refl;
            stored = c;
          }),
    )

module _ (u : Unicode) (now : ℕ) (disk : Disk) (m : Manager) (client : Text) (ip : Addr)
    (hostname fallback : Text) where
  commit_published :
      (l : Lease)
      → (commit_with_fallback u now disk m client ip hostname fallback).1 ≡ ok l
      → let w = committed u now (expired now m) client (unmap ip) hostname fallback in
        commit_with_fallback u now disk m client ip hostname fallback
        ≡ publish disk (expired now m) (with_lease (expire now m.state) client w) w
  unfolding commit_with_fallback commit_live
  commit_published l e = ground arith

  -- A commit that succeeds grants the address that was asked for, for the lease duration, and
  -- changes nothing else but the client's own offer, which is gone; the lease file, where there is
  -- one, holds the state that is in force.
  pub commit_granted :
      (l : Lease)
      → (commit_with_fallback u now disk m client ip hostname fallback).1 ≡ ok l
      → (l.ip ≡ unmap ip)
        × (l.expires_at ≡ now + m.cfg.lease_duration)
        × IsCommitted
            (expired now m)
            (commit_with_fallback u now disk m client ip hostname fallback).0
            client
            l
  unfolding committed
  commit_granted l e =
      let w = committed u now (expired now m) client (unmap ip) hostname fallback in
      let same = commit_published l e in
      let (q, c) =
        with_lease-IsCommitted (expired now m) client w l _
          (publish-Published disk (expired now m) (with_lease (expire now m.state) client w) w)
          (rw same at e) in
      (rw q refl, rw q refl, rw same c)

-- A call that fails, for whatever reason, leaves the state as expiry left it, and the file alone.
abbrev pub Untouched : ℕ → Manager → Manager → Type 0
Untouched now m next = (next.state ≡ expire now m.state) × (next.file ≡ m.file)

module _ {A : Type 0} (disk : Disk) (now : ℕ) (m : Manager) (next : State) (a : A) where
  publish_failed :
      (e : Error)
      → (publish disk (expired now m) next a).1 ≡ err e
      → Untouched now m (publish disk (expired now m) next a).0
  publish_failed e h = elim (publish-Published disk (expired now m) next a) [
    | published x y z ↦ cc
    | failed stage x y z ↦ (y, z)
  ]

failure_changes_nothing :
    (u : Unicode) (now : ℕ) (disk : Disk) (m : Manager) (client : Text) (ip : Addr)
    (hostname fallback : Text) (e : Error)
    → ((commit_with_fallback u now disk m client ip hostname fallback).1 ≡ err e
        → Untouched now m (commit_with_fallback u now disk m client ip hostname fallback).0)
      × ((release now disk m client ip).1 ≡ err e
          → Untouched now m (release now disk m client ip).0)
      × ((decline now disk m client ip).1 ≡ err e
          → Untouched now m (decline now disk m client ip).0)
unfolding commit_with_fallback commit_live release release_live decline decline_live
failure_changes_nothing u now disk m client ip hostname fallback e = (commits, releases, declines)
  where
    w : Lease
    w = committed u now (expired now m) client (unmap ip) hostname fallback

    commits :
        (commit_with_fallback u now disk m client ip hostname fallback).1 ≡ err e
        → Untouched now m (commit_with_fallback u now disk m client ip hostname fallback).0
    commits h =
        ground (arith, publish_failed disk now m (with_lease (expire now m.state) client w) w e)

    releases :
        (release now disk m client ip).1 ≡ err e → Untouched now m (release now disk m client ip).0
    releases h =
        ground
          (arith, publish_failed disk now m (remove client (unmap ip) (expire now m.state)) tt e)

    declines :
        (decline now disk m client ip).1 ≡ err e → Untouched now m (decline now disk m client ip).0
    declines h = ground (
      arith,
      publish_failed disk now m
          (quarantine (now + m.cfg.decline_duration) (unmap ip)
            (remove client (unmap ip) (expire now m.state)))
          tt e,
    )

-- A commit that fails, for whatever reason, leaves the state as expiry left it, and the file alone.
pub commit_failed :
    (u : Unicode) (now : ℕ) (disk : Disk) (m : Manager) (client : Text) (ip : Addr)
    (hostname fallback : Text) (e : Error)
    → (commit_with_fallback u now disk m client ip hostname fallback).1 ≡ err e
    → Untouched now m (commit_with_fallback u now disk m client ip hostname fallback).0
commit_failed u now disk m client ip hostname fallback e =
    (failure_changes_nothing u now disk m client ip hostname fallback e).0

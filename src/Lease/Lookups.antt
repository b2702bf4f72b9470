-- ===== src/Lease/Lookups.antt =====
-- What the queries of DNS find: exactly the live leases.
use infrastructure_in_a_box.Prelude.{
  ℕ, ◌<◌, ◌≡◌, refl, sym, ap, ◌∙◌, ◌≢◌, ◌↔◌, inl, inr, Bool, true, false, [], ◌∷◌, ◌++◌, some, ◌==◌,
  length, arith, Bool-cases, Option-cases, ltb→lt, subst,
}
use infrastructure_in_a_box.Prelude.Text.{
  Text, Unicode, dot, text_discrete, text_eq, to_lower, trim_suffix, has_suffix, has_suffix-append,
}
use infrastructure_in_a_box.Prelude.Table.{find, find-some, find-none, get-retain}
use infrastructure_in_a_box.Names.Hostname.{normalize_hostname}
use infrastructure_in_a_box.Lease.Address.{Addr, addr_eq, unmap}
use infrastructure_in_a_box.Lease.State.{Lease, expire, after}
use infrastructure_in_a_box.Lease.Persistence.{is_reserved}
use infrastructure_in_a_box.Lease.Manager.{Manager, expired, lease_of}
use infrastructure_in_a_box.Lease.Queries.{
  lookup_ip_live, lookup_ip, lookup_name, lookup_name_live, has_name, has_name_live, sought_name,
  names_at_or_below,
}
use infrastructure_in_a_box.Lease.Invariant.{get-retain-some}
use infrastructure_in_a_box.Lease.Valid.{IsValid, expired-IsValid}

-- A lease that survives expiry is a lease that is not over.
live_lease :
    (now : ℕ) (m : Manager) (c : Text) (l : Lease)
    → IsValid m
    → lease_of (expire now m.state) c ≡ some l
    → (lease_of m.state l.client_id ≡ some l) × (now < l.expires_at)
unfolding expire
live_lease now m c l v found =
    let (old, alive) =
      get-retain-some text_discrete (λ (k : Lease). after now k.expires_at) m.state.leases c l
        v.sound.leases_map found in
    let (own, _, _) = v.sound.entry c l (inl old) in
    (subst (λ (k : Text). lease_of m.state k ≡ some l) (sym own) old, ltb→lt _ _ alive)

survives :
    (now : ℕ) (m : Manager) (l : Lease)
    → IsValid m
    → lease_of m.state l.client_id ≡ some l
    → now < l.expires_at
    → lease_of (expire now m.state) l.client_id ≡ some l
unfolding expire
survives now m l v old alive =
    rw
      (
        get-retain text_discrete (λ (k : Lease). after now k.expires_at) l.client_id m.state.leases
            v.sound.leases_map,
        old,
      )
      (ground arith)

-- A search for a lease by a property that at most one live lease has finds exactly that lease,
-- whatever the order of the map.
search_iff :
    (now : ℕ) (m : Manager) (t : Lease → Bool) (l : Lease)
    → IsValid m
    → ((c d : Text) (k j : Lease)
        → lease_of (expire now m.state) c ≡ some k
        → lease_of (expire now m.state) d ≡ some j
        → t k ≡ true
        → t j ≡ true
        → c ≡ d)
    → (find (λ _ k. t k) (expire now m.state).leases ≡ some l)
      ↔ ((lease_of m.state l.client_id ≡ some l) × (now < l.expires_at) × (t l ≡ true))
search_iff now m t l v one = (there, back)
  where
    w : IsValid (expired now m)
    w = expired-IsValid now m v

    p : Text → Lease → Bool
    p _ k = t k

    there :
        find p (expire now m.state).leases ≡ some l
        → (lease_of m.state l.client_id ≡ some l) × (now < l.expires_at) × (t l ≡ true)
    there e =
        let (c, found, hit) =
          find-some text_discrete p (expire now m.state).leases l w.sound.leases_map e in
        let (old, alive) = live_lease now m c l v found in (old, alive, hit)

    back :
        (lease_of m.state l.client_id ≡ some l) × (now < l.expires_at) × (t l ≡ true)
        → find p (expire now m.state).leases ≡ some l
    back (old, alive, good) =
        let kept = survives now m l v old alive in
        elim (Option-cases (find p (expire now m.state).leases)) [
          | inl missed ↦ cc (
            find-none text_discrete p (expire now m.state).leases l.client_id l missed kept,
            good,
          )
          | inr (k, e) ↦
              let (c, found, hit) =
                find-some text_discrete p (expire now m.state).leases k w.sound.leases_map e in
              let same = one c l.client_id k l found kept hit good in
              e ∙ sym found ∙ ap (λ (d : Text). lease_of (expire now m.state) d) same ∙ kept
        ]

-- On a valid manager LookupIP finds exactly the live lease of the address.
pub lookup_ip_iff :
    (now : ℕ) (m : Manager) (ip : Addr) (l : Lease)
    → IsValid m
    → ((lookup_ip now m ip).1 ≡ some l)
      ↔ ((lease_of m.state l.client_id ≡ some l) × (now < l.expires_at) × (l.ip ≡ unmap ip))
unfolding lookup_ip lookup_ip_live
lookup_ip_iff now m ip l v =
    let s = search_iff now m (λ k. addr_eq k.ip (unmap ip)) l v one in
    (λ e. let (a, b, c) = s.0 e in (a, b, ground arith), λ h. s.1 (h.0, h.1, ground arith))
  where
    w : IsValid (expired now m)
    w = expired-IsValid now m v

    one :
        (c d : Text) (k j : Lease)
        → lease_of (expire now m.state) c ≡ some k
        → lease_of (expire now m.state) d ≡ some j
        → addr_eq k.ip (unmap ip) ≡ true
        → addr_eq j.ip (unmap ip) ≡ true
        → c ≡ d
    one c d k j a b x y = w.sound.exclusive c d k j (inl a) (inl b) (ground arith)

-- On a valid manager LookupName finds exactly the live lease that is registered under the name's
-- canonical form.
pub lookup_name_iff :
    (u : Unicode) (now : ℕ) (m : Manager) (name : Text) (l : Lease)
    → IsValid m
    → ((lookup_name u now m name).1 ≡ some l) ↔ (
        (lease_of m.state l.client_id ≡ some l)
        × (now < l.expires_at)
        × (l.hostname ≡ normalize_hostname u name m.cfg.domain)
        × (l.hostname ≢ []))
unfolding lookup_name lookup_name_live
lookup_name_iff u now m name l v = elim (Bool-cases (length canonical == 0)) [
  | inl empty ↦ (λ e. cc (rw empty at e), λ h. absurd (h.3 (ground arith)))
  | inr named ↦ elim (Bool-cases (is_reserved m.reserved canonical)) [
    | inl reserved ↦ (λ e. cc (rw (named, reserved) at e), λ h. taken reserved h)
    | inr open_name ↦
        let s = search_iff now m (λ k. text_eq k.hostname canonical) l v (one named) in
        rw (named, open_name)
          (
            λ e. let (a, b, c) = s.0 e in (a, b, ground arith, λ z. ground arith),
            λ h. s.1 (h.0, h.1, ground arith),
          )
  ]
]
  where
    w : IsValid (expired now m)
    w = expired-IsValid now m v

    canonical : Text
    canonical = normalize_hostname u name m.cfg.domain

    taken :
        is_reserved m.reserved canonical ≡ true
        → (lease_of m.state l.client_id ≡ some l)
          × (now < l.expires_at)
          × (l.hostname ≡ canonical)
          × (l.hostname ≢ [])
        → (lookup_name u now m name).1 ≡ some l
    taken reserved (a, b, c, n) =
        cc (v.sound.unreserved l.client_id l a n, ap (is_reserved m.reserved) c)

    one :
        (length canonical == 0) ≡ false
        → (c d : Text) (k j : Lease) → lease_of (expire now m.state) c ≡ some k
        → lease_of (expire now m.state) d ≡ some j
        → text_eq k.hostname canonical ≡ true
        → text_eq j.hostname canonical ≡ true
        → c ≡ d
    one named c d k j a b x y = w.sound.unique c d k j a b (ground arith) (λ z. ground arith)

append-ne-nil : (a b : Text) → a ++ (dot ∷ b) ≢ []
append-ne-nil [] b e = cc
append-ne-nil (x ∷ a) b e = cc

-- On a valid manager HasName knows every proper name that a live lease is registered below.
pub has_name_below :
    (u : Unicode) (now : ℕ) (m : Manager) (name front : Text) (l : Lease)
    → IsValid m
    → lease_of m.state l.client_id ≡ some l
    → now < l.expires_at
    → l.hostname ≡ front ++ (dot ∷ normalize_hostname u name m.cfg.domain)
    → normalize_hostname u name m.cfg.domain ≢ []
    → text_eq (to_lower u (trim_suffix name (dot ∷ []))) m.cfg.domain ≡ false
    → (has_name u now m name).1 ≡ true
unfolding has_name has_name_live
has_name_below u now m name front l v old alive below named inner =
    let some_name : (length sought == 0) ≡ false = rw sought-canonical (ground (arith, named)) in
    rw some_name (elim (Option-cases (find p (expire now m.state).leases)) [
      | inr (k, e) ↦ rw e refl
      | inl missed ↦ cc (
        find-none text_discrete p (expire now m.state).leases l.client_id l missed
            (survives now m l v old alive),
        meets,
      )
    ])
  where
    canonical : Text
    canonical = normalize_hostname u name m.cfg.domain

    sought : Text
    sought = sought_name u m.cfg.domain name

    sought-canonical : sought_name u m.cfg.domain name ≡ normalize_hostname u name m.cfg.domain
    sought-canonical = unfold sought_name in (rw inner refl)

    p : Text → Lease → Bool
    p _ k = names_at_or_below u m.reserved sought k

    filled : l.hostname ≢ []
    filled e = append-ne-nil front canonical (sym below ∙ e)

    meets : names_at_or_below u m.reserved sought l ≡ true
    meets =
        let proper : (length l.hostname == 0) ≡ false = ground (arith, filled) in
        let ends : has_suffix l.hostname (dot ∷ canonical) ≡ true =
          ap (λ (h : Text). has_suffix h (dot ∷ canonical)) below
          ∙ has_suffix-append front (dot ∷ canonical) in
        rw sought-canonical (
          unfold names_at_or_below in
          (ground (arith, proper, ends, v.sound.unreserved l.client_id l old filled)))

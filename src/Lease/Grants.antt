-- ===== src/Lease/Grants.antt =====
-- The state changes of Offer, Commit and Decline keep the manager's state sound.
use infrastructure_in_a_box.Prelude.{
  ℕ, ◌≡◌, refl, sym, ◌∙◌, ◌≢◌, ◌⊎◌, inl, inr, true, false, ◌||◌, List, [], ◌∷◌, ◌++◌, none, some,
  arith, Bool-cases,
}
use infrastructure_in_a_box.Prelude.Text.{Text, text_discrete}
use infrastructure_in_a_box.Prelude.Table.{Table, get, put, IsMap, get-put, put-IsMap, erase-IsMap}
use infrastructure_in_a_box.Lease.Address.{Addr, addr_discrete, occupies}
use infrastructure_in_a_box.Lease.State.{Lease, Config, State, in_pool, occupied, other_ips, keys}
use infrastructure_in_a_box.Lease.Persistence.{is_reserved}
use infrastructure_in_a_box.Lease.Commits.{with_lease, quarantine}
use infrastructure_in_a_box.Lease.Invariant.{IsSound, Holds, IsName, get-erase-some}

-- No client but `c` holds the address, and it is not set aside.
pub record IsClear (s : State) (c : Text) (ip : Addr) : Type 0 where
  pub unheld : (d : Text) (l : Lease) → Holds s d l → l.ip ≡ ip → d ≡ c
  pub kept : get addr_discrete ip s.declined ≡ none

occupies-append :
    (xs ys : List Addr) (ip : Addr) → occupies (xs ++ ys) ip ≡ (occupies xs ip || occupies ys ip)
occupies-append [] ys ip = refl
occupies-append (x ∷ xs) ys ip = ground (arith, occupies-append xs ys ip)

other_ips-free :
    (c d : Text) (m : Table Text Lease) (l : Lease) (ip : Addr)
    → occupies (other_ips c m) ip ≡ false
    → get text_discrete d m ≡ some l
    → l.ip ≡ ip
    → d ≡ c
unfolding other_ips get
other_ips-free c d [] l ip h e q = cc
other_ips-free c d ((k, w) ∷ m) l ip h e q = ground (arith, other_ips-free c d m l ip)

keys-free :
    (m : Table Addr ℕ) (ip : Addr) → occupies (keys m) ip ≡ false → get addr_discrete ip m ≡ none
unfolding keys get
keys-free [] ip h = refl
keys-free ((k, w) ∷ m) ip h = ground (arith, keys-free m ip)

occupied_parts :
    (s : State) (c : Text) (ip : Addr)
    → occupies (occupied s c) ip ≡ (
        occupies (other_ips c s.leases) ip
        || (occupies (other_ips c s.offers) ip || occupies (keys s.declined) ip))
unfolding occupied
occupied_parts s c ip = rw (
  occupies-append (other_ips c s.leases) (other_ips c s.offers ++ keys s.declined) ip,
  occupies-append (other_ips c s.offers) (keys s.declined) ip,
)

-- An address that `occupied` does not list is clear for the client.
pub occupied-IsClear :
    (s : State) (c : Text) (ip : Addr) → occupies (occupied s c) ip ≡ false → IsClear s c ip
occupied-IsClear s c ip h =
    let parts = occupied_parts s c ip in
    let a : occupies (other_ips c s.leases) ip ≡ false = ground arith in
    let b : occupies (other_ips c s.offers) ip ≡ false = ground arith in
    let k : occupies (keys s.declined) ip ≡ false = ground arith in
    record { unheld = unheld a b; kept = keys-free s.declined ip k }
  where
    unheld :
        occupies (other_ips c s.leases) ip ≡ false
        → occupies (other_ips c s.offers) ip ≡ false
        → (d : Text) (l : Lease) → Holds s d l
        → l.ip ≡ ip
        → d ≡ c
    unheld a b d l (inl e) q = other_ips-free c d s.leases l ip a e q
    unheld a b d l (inr e) q = other_ips-free c d s.offers l ip b e q

other_ips-held :
    (c : Text) (m : Table Text Lease) (ip : Addr)
    → IsMap text_discrete m
    → occupies (other_ips c m) ip ≡ true
    → (d : Text) × (l : Lease) × (get text_discrete d m ≡ some l) × (d ≢ c) × (l.ip ≡ ip)
unfolding other_ips get
other_ips-held c [] ip h e = cc
other_ips-held c ((k, w) ∷ m) ip h e = elim (text_discrete k c) [
  | yes same ↦
      let (d, l, f, n, q) = other_ips-held c m ip h.1 (ground arith) in (d, l, ground arith, n, q)
  | no differs ↦ elim (addr_discrete w.ip ip) [
    | yes here ↦ (k, w, ground arith, differs, here)
    | no there ↦
        let (d, l, f, n, q) = other_ips-held c m ip h.1 (ground arith) in (d, l, ground arith, n, q)
  ]
]

keys-held :
    (m : Table Addr ℕ) (ip : Addr) → occupies (keys m) ip ≡ true → get addr_discrete ip m ≢ none
unfolding keys get
keys-held [] ip h = cc
keys-held ((k, w) ∷ m) ip h = ground (arith, keys-held m ip)

-- An address that `occupied` lists is not clear for the client.
pub occupied-not-IsClear :
    (s : State) (c : Text) (ip : Addr)
    → IsMap text_discrete s.leases
    → IsMap text_discrete s.offers
    → occupies (occupied s c) ip ≡ true
    → ¬ IsClear s c ip
occupied-not-IsClear s c ip hl ho h k = elim (Bool-cases (occupies (other_ips c s.leases) ip)) [
  | inl held ↦
      let (d, l, f, n, q) = other_ips-held c s.leases ip hl held in n (k.unheld d l (inl f) q)
  | inr not_leased ↦ elim (Bool-cases (occupies (other_ips c s.offers) ip)) [
    | inl held ↦
        let (d, l, f, n, q) = other_ips-held c s.offers ip ho held in n (k.unheld d l (inr f) q)
    | inr not_offered ↦ keys-held s.declined ip (ground (arith, occupied_parts s c ip)) k.kept
  ]
]

pub get-put-some :
    {V : Type 0} (c d : Text) (v w : V) (m : Table Text V)
    → get text_discrete d (put text_discrete c v m) ≡ some w
    → ((c ≡ d) × (v ≡ w)) ⊎ ((c ≢ d) × (get text_discrete d m ≡ some w))
get-put-some c d v w m h = ground (arith, get-put text_discrete c d v m)

-- What a new entry must bring.
pub record IsGrant (cfg : Config) (s : State) (c : Text) (l : Lease) : Type 0 where
  pub client : l.client_id ≡ c
  pub inside : in_pool cfg l.ip ≡ true
  pub name : IsName cfg.domain l.hostname
  pub clear : IsClear s c l.ip

-- What a state has that differs from `s` by the entry `n` of the client `c`, under either map.
record Gains (s t : State) (c : Text) (n : Lease) : Type 0 where
  held : (d : Text) (l : Lease) → Holds t d l → ((c ≡ d) × (n ≡ l)) ⊎ Holds s d l
  same_declined : t.declined ≡ s.declined

module _ {cfg : Config} {reserved : List Text} {s t : State} {c : Text} {n : Lease}
    (g : Gains s t c n) (v : IsSound cfg reserved s) (w : IsGrant cfg s c n) where
  gains-entry :
      (d : Text) (l : Lease)
      → Holds t d l
      → (l.client_id ≡ d) × (in_pool cfg l.ip ≡ true) × IsName cfg.domain l.hostname
  gains-entry d l h = elim (g.held d l h) [
    | inl (e, q) ↦ rw (← e, ← q) (w.client, w.inside, w.name)
    | inr old ↦ v.entry d l old
  ]

  gains-exclusive : (d e : Text) (l m : Lease) → Holds t d l → Holds t e m → l.ip ≡ m.ip → d ≡ e
  gains-exclusive d e l m h k q = elim (g.held d l h) [
    | inl (a, b) ↦ elim (g.held e m k) [
      | inl (a', b') ↦ cc
      | inr old ↦ sym (w.clear.unheld e m old (cc) ∙ a)
    ]
    | inr first ↦ elim (g.held e m k) [
      | inl (a', b') ↦ w.clear.unheld d l first (cc) ∙ a'
      | inr old ↦ v.exclusive d e l m first old q
    ]
  ]

  gains-free : (d : Text) (l : Lease) → Holds t d l → get addr_discrete l.ip t.declined ≡ none
  gains-free d l h =
      rw g.same_declined
        (elim (g.held d l h) [ inl (a, b) ↦ rw (← b) w.clear.kept | inr old ↦ v.free d l old ])

-- The state after an offer.
abbrev pub with_offer : State → Text → Lease → State
with_offer s c l = record s { offers = put text_discrete c l s.offers }

with_offer-Gains : (s : State) (c : Text) (n : Lease) → Gains s (with_offer s c n) c n
with_offer-Gains s c n = record { held = held; same_declined = refl }
  where
    held : (d : Text) (l : Lease) → Holds (with_offer s c n) d l → ((c ≡ d) × (n ≡ l)) ⊎ Holds s d l
    held d l (inl h) = inr (inl h)
    held d l (inr h) = ground (arith, get-put-some c d n l s.offers h)

pub with_offer-IsSound :
    {cfg : Config} {reserved : List Text} (s : State) (c : Text) (n : Lease)
    → IsSound cfg reserved s
    → IsGrant cfg s c n
    → IsSound cfg reserved (with_offer s c n)
with_offer-IsSound s c n v w =
    let g = with_offer-Gains s c n in
    record {
      leases_map = v.leases_map;
      offers_map = put-IsMap text_discrete c n s.offers v.offers_map;
      declined_map = v.declined_map;
      entry = gains-entry g v w;
      exclusive = gains-exclusive g v w;
      free = gains-free g v w;
      unique = v.unique;
      unreserved = v.unreserved;
    }

with_lease-Gains : (s : State) (c : Text) (n : Lease) → Gains s (with_lease s c n) c n
unfolding with_lease
with_lease-Gains s c n = record { held = held; same_declined = refl }
  where
    held : (d : Text) (l : Lease) → Holds (with_lease s c n) d l → ((c ≡ d) × (n ≡ l)) ⊎ Holds s d l
    held d l (inl h) = ground (arith, get-put-some c d n l s.leases h)
    held d l (inr h) = inr (inr (get-erase-some c d s.offers l h).1)

-- The hostname is free for the client: no other has it, and it is not reserved.
pub record IsFreeName (reserved : List Text) (s : State) (c : Text) (name : Text) : Type 0 where
  pub alone :
      (d : Text) (l : Lease)
      → get text_discrete d s.leases ≡ some l
      → l.hostname ≡ name
      → name ≢ []
      → d ≡ c
  pub open_name : name ≢ [] → is_reserved reserved name ≡ false

module _ {cfg : Config} {reserved : List Text} (s : State) (c : Text) (n : Lease)
    (v : IsSound cfg reserved s) (f : IsFreeName reserved s c n.hostname) where
  with_lease_unique :
      (d e : Text) (l m : Lease)
      → get text_discrete d (with_lease s c n).leases ≡ some l
      → get text_discrete e (with_lease s c n).leases ≡ some m
      → l.hostname ≡ m.hostname
      → l.hostname ≢ []
      → d ≡ e
  unfolding with_lease
  with_lease_unique d e l m h k q z = elim (get-put-some c d n l s.leases h) [
    | inl (a, b) ↦ elim (get-put-some c e n m s.leases k) [
      | inl (a', b') ↦ cc
      | inr (a', b') ↦ sym (f.alone e m b' (cc) (rw b z) ∙ a)
    ]
    | inr (a, b) ↦ elim (get-put-some c e n m s.leases k) [
      | inl (a', b') ↦ f.alone d l b (cc) (λ y. z (cc)) ∙ a'
      | inr (a', b') ↦ v.unique d e l m b b' q z
    ]
  ]

  with_lease-unreserved :
      (d : Text) (l : Lease)
      → get text_discrete d (with_lease s c n).leases ≡ some l
      → l.hostname ≢ []
      → is_reserved reserved l.hostname ≡ false
  unfolding with_lease
  with_lease-unreserved d l h z = elim (get-put-some c d n l s.leases h) [
    | inl (a, b) ↦ rw (← b) (f.open_name (rw b z))
    | inr (a, b) ↦ v.unreserved d l b z
  ]

pub with_lease-IsSound :
    {cfg : Config} {reserved : List Text} (s : State) (c : Text) (n : Lease)
    → IsSound cfg reserved s
    → IsGrant cfg s c n
    → IsFreeName reserved s c n.hostname
    → IsSound cfg reserved (with_lease s c n)
unfolding with_lease
with_lease-IsSound s c n v w f =
    let g = with_lease-Gains s c n in
    record {
      leases_map = put-IsMap text_discrete c n s.leases v.leases_map;
      offers_map = erase-IsMap text_discrete c s.offers v.offers_map;
      declined_map = v.declined_map;
      entry = gains-entry g v w;
      exclusive = gains-exclusive g v w;
      free = gains-free g v w;
      unique = with_lease_unique s c n v f;
      unreserved = with_lease-unreserved s c n v f;
    }

-- An address that nobody holds may be set aside.
pub quarantine-IsSound :
    {cfg : Config} {reserved : List Text} (s : State) (until : ℕ) (ip : Addr)
    → IsSound cfg reserved s
    → ((d : Text) (l : Lease) → Holds s d l → l.ip ≢ ip)
    → IsSound cfg reserved (quarantine until ip s)
unfolding quarantine
quarantine-IsSound s until ip v nobody = record {
  leases_map = v.leases_map;
  offers_map = v.offers_map;
  declined_map = put-IsMap addr_discrete ip until s.declined v.declined_map;
  entry = v.entry;
  exclusive = v.exclusive;
  free = λ c l h.
      rw (get-put addr_discrete ip l.ip until s.declined)
        (ground (arith, nobody c l h, v.free c l h));
  unique = v.unique;
  unreserved = v.unreserved;
}

-- ===== src/Lease/Restart.antt =====
-- A manager that starts is valid, whatever the lease file holds.
use infrastructure_in_a_box.Prelude.{
  ℕ, ◌≡◌, refl, ◌≢◌, ◌⊎◌, inl, inr, true, false, ◌&&◌, not, List, [], ◌∷◌, none, some, ◌==◌, any,
  length, arith, Bool-cases, Option-cases,
}
use infrastructure_in_a_box.Prelude.Results.{ok, fail_if, >>=-eq-ok}
use infrastructure_in_a_box.Prelude.Text.{Text, Unicode, text_discrete, text_eq}
use infrastructure_in_a_box.Prelude.Table.{get, put, get-put, erase}
use infrastructure_in_a_box.Names.Hostname.{normalize_hostname}
use infrastructure_in_a_box.Lease.Address.{Addr, addr_discrete, occupies}
use infrastructure_in_a_box.Lease.State.{Lease, Config, State, after, in_pool, new_state}
use infrastructure_in_a_box.Lease.Persistence.{
  PersistedState, DeclinedAddress, File, Restoring, restore_lease, restore_leases, restore_declined,
  restore_all_declined, restore_saved, restore_file, restore, restored, nothing_seen,
  remember_lease, refused_hostname, stored_lease, is_reserved, is_version_one, unsupported_version,
}
use infrastructure_in_a_box.Lease.Commits.{with_lease, quarantine}
use infrastructure_in_a_box.Lease.Invariant.{IsSound, Holds, IsName, new_state-IsSound}
use infrastructure_in_a_box.Lease.Grants.{
  IsClear, IsGrant, IsFreeName, with_lease-IsSound, quarantine-IsSound, get-put-some,
}
use infrastructure_in_a_box.Lease.Valid.{IsConfig, normalize_hostname-IsName}

-- The sets of `restore` hold the addresses and the names of the entries taken so far.
record IsRestoring (cfg : Config) (reserved : List Text) (r : Restoring) : Type 0 where
  sound : IsSound cfg reserved (restored r)
  seen :
      (c : Text) (l : Lease)
      → get text_discrete c r.leases ≡ some l
      → occupies r.addresses l.ip ≡ true
  set_aside : (ip : Addr) → get addr_discrete ip r.declined ≢ none → occupies r.addresses ip ≡ true
  named :
      (c : Text) (l : Lease)
      → get text_discrete c r.leases ≡ some l
      → l.hostname ≢ []
      → any (λ n. text_eq n l.hostname) r.names ≡ true

module _ (u : Unicode) (cfg : Config) (reserved : List Text) (now : ℕ) where
  -- What a lease has passed that a round takes over.
  record IsTaken (r : Restoring) (l : Lease) : Type 0 where
    inside : in_pool cfg l.ip ≡ true
    proper : refused_hostname u cfg l.hostname ≡ false
    new_address : occupies r.addresses l.ip ≡ false
    new_name : (not (length l.hostname == 0) && any (λ n. text_eq n l.hostname) r.names) ≡ false
    taken_live : after now l.expires_at ≡ true

-- What a lease is stored as.
stored_lease_cases :
    (reserved : List Text) (l : Lease)
    → (stored_lease reserved l ≡ record l { hostname = [] })
      ⊎ ((stored_lease reserved l ≡ l) × (is_reserved reserved l.hostname ≡ false))
unfolding stored_lease
stored_lease_cases reserved l = ground arith

refused_hostname-IsName :
    (u : Unicode) (cfg : Config) (name : Text)
    → IsConfig cfg
    → refused_hostname u cfg name ≡ false
    → IsName cfg.domain name
unfolding refused_hostname
refused_hostname-IsName u cfg name c h = elim (text_discrete name []) [
  | yes e ↦ inl e
  | no n ↦
      let e : normalize_hostname u name cfg.domain ≡ name = ground arith in
      rw e at (normalize_hostname-IsName u cfg name c)
]

module _ (u : Unicode) (cfg : Config) (reserved : List Text) (now : ℕ) where
  restore_lease_cases :
      (r r' : Restoring) (l : Lease)
      → restore_lease u cfg reserved now r l ≡ ok r'
      → (r' ≡ r) ⊎ (IsTaken u cfg reserved now r l × (r' ≡ remember_lease reserved r l))
  unfolding restore_lease
  restore_lease_cases r r' l e = ground arith

  module _ (c : IsConfig cfg) (r : Restoring) (v : IsRestoring cfg reserved r) (l : Lease)
      (t : IsTaken u cfg reserved now r l) where
    taken-IsClear : IsClear (restored r) l.client_id l.ip
    unfolding get
    taken-IsClear = record { unheld = unheld; kept = kept }
      where
        unheld : (d : Text) (k : Lease) → Holds (restored r) d k → k.ip ≡ l.ip → d ≡ l.client_id
        unheld d k (inl h) e = ground (arith, v.seen d k h, t.new_address)
        unheld d k (inr h) e = cc

        kept : get addr_discrete l.ip r.declined ≡ none
        kept = elim (Option-cases (get addr_discrete l.ip r.declined)) [
          | inl e ↦ e
          | inr (w, e) ↦ cc (v.set_aside l.ip (λ n. cc), t.new_address)
        ]

    taken-IsGrant : IsGrant cfg (restored r) l.client_id (stored_lease reserved l)
    taken-IsGrant =
        let n = refused_hostname-IsName u cfg l.hostname c t.proper in
        elim (stored_lease_cases reserved l) [
          | inl e ↦
              rw e (record {
                client = refl;
                inside = t.inside;
                name = inl refl;
                clear = taken-IsClear;
              })
          | inr (e, _) ↦
              rw e (record { client = refl; inside = t.inside; name = n; clear = taken-IsClear })
        ]

    taken-IsFreeName :
        IsFreeName reserved (restored r) l.client_id (stored_lease reserved l).hostname
    taken-IsFreeName = elim (stored_lease_cases reserved l) [
      | inl e ↦
          rw e (record { alone = λ d k h q n. absurd (n refl); open_name = λ n. absurd (n refl) })
      | inr (e, free) ↦ rw e (record {
        alone = λ d k h q n. ground (arith, v.named d k h, t.new_name);
        open_name = λ n. free;
      })
    ]

    remember-IsSound : IsSound cfg reserved (restored (remember_lease reserved r l))
    unfolding remember_lease with_lease erase
    remember-IsSound =
        with_lease-IsSound (restored r) l.client_id (stored_lease reserved l) v.sound taken-IsGrant
          taken-IsFreeName

    remember_seen :
        (d : Text) (k : Lease)
        → get text_discrete d (remember_lease reserved r l).leases ≡ some k
        → occupies (remember_lease reserved r l).addresses k.ip ≡ true
    unfolding remember_lease stored_lease
    remember_seen d k h = elim (get-put-some l.client_id d (stored_lease reserved l) k r.leases h) [
      | inl (a, b) ↦ ground arith
      | inr (a, b) ↦ ground (arith, v.seen d k b)
    ]

    remember_named :
        (d : Text) (k : Lease)
        → get text_discrete d (remember_lease reserved r l).leases ≡ some k
        → k.hostname ≢ []
        → any (λ n. text_eq n k.hostname) (remember_lease reserved r l).names ≡ true
    unfolding remember_lease stored_lease
    remember_named d k h z =
        elim (get-put-some l.client_id d (stored_lease reserved l) k r.leases h) [
          | inl (a, b) ↦ ground arith
          | inr (a, b) ↦ ground (arith, v.named d k b z)
        ]

    remember_lease-IsRestoring : IsRestoring cfg reserved (remember_lease reserved r l)
    unfolding remember_lease
    remember_lease-IsRestoring = record {
      sound = remember-IsSound;
      seen = remember_seen;
      set_aside = λ ip h. ground (arith, v.set_aside ip h);
      named = remember_named;
    }

  abbrev with_declined : Restoring → DeclinedAddress → Restoring
  with_declined r d = record r {
    declined = put addr_discrete d.ip d.expires_at r.declined;
    addresses = d.ip ∷ r.addresses;
  }

  restore_declined_cases :
      (r r' : Restoring) (d : DeclinedAddress)
      → restore_declined u cfg reserved now r d ≡ ok r'
      → (r' ≡ r) ⊎ ((occupies r.addresses d.ip ≡ false) × (r' ≡ with_declined r d))
  unfolding restore_declined
  restore_declined_cases r r' d e = ground arith

  set_aside-IsRestoring :
      (r : Restoring) (v : IsRestoring cfg reserved r) (d : DeclinedAddress)
      → occupies r.addresses d.ip ≡ false
      → IsRestoring cfg reserved (with_declined r d)
  unfolding quarantine get
  set_aside-IsRestoring r v d free = record {
    sound = quarantine-IsSound (restored r) d.expires_at d.ip v.sound nobody;
    seen = λ c l h. ground (arith, v.seen c l h);
    set_aside = set_aside;
    named = v.named;
  }
    where
      nobody : (e : Text) (k : Lease) → Holds (restored r) e k → k.ip ≢ d.ip
      nobody e k (inl h) q = ground (arith, v.seen e k h)
      nobody e k (inr h) q = cc

      set_aside :
          (ip : Addr)
          → get addr_discrete ip (put addr_discrete d.ip d.expires_at r.declined) ≢ none
          → occupies (d.ip ∷ r.addresses) ip ≡ true
      set_aside ip h = elim (addr_discrete d.ip ip) [
        | yes same ↦ ground arith
        | no other ↦ ground (
          arith,
          v.set_aside ip
              (λ n. h (ground (arith, get-put addr_discrete d.ip ip d.expires_at r.declined))),
        )
      ]

  module _ (c : IsConfig cfg) where
    restore_lease-IsRestoring :
        (l : Lease) (r r' : Restoring)
        → IsRestoring cfg reserved r
        → restore_lease u cfg reserved now r l ≡ ok r'
        → IsRestoring cfg reserved r'
    restore_lease-IsRestoring l r r' v e = elim (restore_lease_cases r r' l e) [
      | inl same ↦ rw same v
      | inr (t, q) ↦ rw q (remember_lease-IsRestoring c r v l t)
    ]

    restore_leases-IsRestoring :
        (ls : List Lease) (r r' : Restoring)
        → IsRestoring cfg reserved r
        → restore_leases u cfg reserved now r ls ≡ ok r'
        → IsRestoring cfg reserved r'
    unfolding restore_leases
    restore_leases-IsRestoring [] r r' v e = let q : r' ≡ r = cc in rw q v
    restore_leases-IsRestoring (l ∷ ls) r r' v e =
        let (q, first, rest) = >>=-eq-ok (restore_lease u cfg reserved now r l) _ e in
        restore_leases-IsRestoring ls q r' (restore_lease-IsRestoring l r q v first) rest

    restore_declined-IsRestoring :
        (d : DeclinedAddress) (r r' : Restoring)
        → IsRestoring cfg reserved r
        → restore_declined u cfg reserved now r d ≡ ok r'
        → IsRestoring cfg reserved r'
    restore_declined-IsRestoring d r r' v e = elim (restore_declined_cases r r' d e) [
      | inl same ↦ rw same v
      | inr (free, q) ↦ rw q (set_aside-IsRestoring r v d free)
    ]

    restore_all_declined-IsRestoring :
        (ds : List DeclinedAddress) (r r' : Restoring)
        → IsRestoring cfg reserved r
        → restore_all_declined u cfg reserved now r ds ≡ ok r'
        → IsRestoring cfg reserved r'
    unfolding restore_all_declined
    restore_all_declined-IsRestoring [] r r' v e = let q : r' ≡ r = cc in rw q v
    restore_all_declined-IsRestoring (d ∷ ds) r r' v e =
        let (q, first, rest) = >>=-eq-ok (restore_declined u cfg reserved now r d) _ e in
        restore_all_declined-IsRestoring ds q r' (restore_declined-IsRestoring d r q v first) rest

    restore_saved-IsSound :
        (p : PersistedState) (s : State)
        → restore_saved u cfg reserved now p ≡ ok s
        → IsSound cfg reserved s
    unfolding restore_saved
    restore_saved-IsSound p s e =
        let (_, _, e1) =
          >>=-eq-ok (fail_if (not (is_version_one p.version)) unsupported_version) _ e in
        let (r, leases, e2) =
          >>=-eq-ok (restore_leases u cfg reserved now nothing_seen p.leases) _ e1 in
        let (r', declined, e3) =
          >>=-eq-ok (restore_all_declined u cfg reserved now r p.declined) _ e2 in
        let q : s ≡ restored r' = cc in
        let v = restore_leases-IsRestoring p.leases nothing_seen r start leases in
        rw q (restore_all_declined-IsRestoring p.declined r r' v declined).sound
      where
        start : IsRestoring cfg reserved nothing_seen
        start = record {
          sound = new_state-IsSound cfg reserved;
          seen = λ d l h. unfold get in cc;
          set_aside = λ ip h. absurd (h (unfold get in refl));
          named = λ d l h n. unfold get in cc;
        }

    restore_file-IsSound :
        (file : File) (s : State)
        → restore_file u cfg reserved now file ≡ ok s
        → IsSound cfg reserved s
    unfolding restore_file
    restore_file-IsSound File.missing s e =
        let q : s ≡ new_state = cc in rw q (new_state-IsSound cfg reserved)
    restore_file-IsSound (File.saved p) s e = restore_saved-IsSound p s e
    restore_file-IsSound _ s e = cc

    -- Under a checked configuration, a state that restore accepts from a lease file is sound: no
    -- client, address or hostname stands in it twice, every address lies in the pool, and no
    -- reserved name is registered.
    pub restore-IsSound :
        (file : File) (s : State) → restore u cfg reserved now file ≡ ok s → IsSound cfg reserved s
    unfolding restore restore_file
    restore-IsSound file s e = elim (Bool-cases (length cfg.file == 0)) [
      | inl unset ↦ let q : s ≡ new_state = ground arith in rw q (new_state-IsSound cfg reserved)
      | inr set ↦ restore_file-IsSound file s (rw set at e)
    ]

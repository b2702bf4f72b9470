-- ===== src/Ldap/Results.antt =====
-- What a search sends, against the list of the entries that match.
use infrastructure_in_a_box.Prelude.{
  ℕ, suc, ◌≡◌, ◌≢◌, refl, ap, ◌+◌, ◌≤◌, ◌<◌, inl, inr, true, false, List, [], ◌∷◌, if◌then◌else◌,
  arith, Bool-cases, length, take, ◌==◌, ==→eq, any,
}
use infrastructure_in_a_box.Ldap.Packet.{Code}
use infrastructure_in_a_box.Ldap.Directory.{Names, Entry}
use infrastructure_in_a_box.Ldap.Search.{
  Request, Directory, searched, limit_of, is_hit, Tick, on_time, late, cancelled, unwritable, End,
  finished, closed, Outcome, ends, sends, search_entries, run_search,
}

zero_le_limit : (size : ℕ) → 0 ≤ limit_of size
zero_le_limit size = omega arith

module _ {Dn : Type 0} (names : Names Dn) (request : Request Dn) where
  -- The entries in scope that the filter is true of.
  abbrev pub hits : List (Entry Dn) → List (Entry Dn)
  hits [] = []
  hits (e ∷ entries) = if is_hit names request e then e ∷ hits entries else hits entries

  -- The first matches were sent, within the limit; all of them where the search succeeds, and as
  -- many as the limit allows, but not all, where it fails for its size.
  pub record IsAnswer (count : ℕ) (entries : List (Entry Dn)) (o : Outcome Dn) : Type 0 where
    pub shown : ℕ
    pub first : o.sent ≡ take shown (hits entries)
    pub within : shown + count ≤ limit_of request.size
    pub complete : o.ending ≡ finished Code.success → o.sent ≡ hits entries
    pub cut :
        o.ending ≡ finished Code.size_limit_exceeded
        → (shown + count ≡ limit_of request.size) × (shown < length (hits entries))

  stopped :
      (count : ℕ) (entries : List (Entry Dn)) (ending : End)
      → count ≤ limit_of request.size
      → ending ≢ finished Code.success
      → ending ≢ finished Code.size_limit_exceeded
      → IsAnswer count entries (ends ending)
  stopped count entries ending h a b = record {
    shown = 0;
    first = refl;
    within = omega (arith, h);
    complete = λ e. absurd (a e);
    cut = λ e. absurd (b e);
  }

  skipped :
      (count : ℕ) (e : Entry Dn) (entries : List (Entry Dn)) (o : Outcome Dn)
      → is_hit names request e ≡ false
      → IsAnswer count entries o
      → IsAnswer count (e ∷ entries) o
  skipped count e entries o miss h = record {
    shown = h.shown;
    first = rw miss h.first;
    within = h.within;
    complete = λ q. rw miss (h.complete q);
    cut = λ q. ((h.cut q).0, rw miss (h.cut q).1);
  }

  full :
      (count : ℕ) (e : Entry Dn) (entries : List (Entry Dn))
      → is_hit names request e ≡ true
      → count ≡ limit_of request.size
      → IsAnswer count (e ∷ entries) (ends (finished Code.size_limit_exceeded))
  full count e entries hit h = record {
    shown = 0;
    first = refl;
    within = omega arith;
    complete = λ e. absurd cc;
    cut = λ q. (omega (arith, h), rw hit (omega arith));
  }

  sent :
      (count : ℕ) (e : Entry Dn) (entries : List (Entry Dn)) (o : Outcome Dn)
      → is_hit names request e ≡ true
      → IsAnswer (count + 1) entries o
      → IsAnswer count (e ∷ entries) (sends e o)
  sent count e entries o hit h = record {
    shown = suc h.shown;
    first = rw hit (ap (◌∷◌ e) h.first);
    within = omega (arith, h.within);
    complete = λ q. rw hit (ap (◌∷◌ e) (h.complete q));
    cut = λ q. (omega (arith, (h.cut q).0), rw hit (omega (arith, (h.cut q).1)));
  }

  done :
      (count : ℕ) → count ≤ limit_of request.size → IsAnswer count [] (ends (finished Code.success))
  done count h = record {
    shown = 0;
    first = refl;
    within = omega (arith, h);
    complete = λ e. refl;
    cut = λ e. absurd cc;
  }

  search_entries-IsAnswer :
      (clock : ℕ → Tick) (i count : ℕ) (entries : List (Entry Dn))
      → count ≤ limit_of request.size
      → IsAnswer count entries (search_entries names request clock i count entries)
  unfolding search_entries
  search_entries-IsAnswer clock i count [] h = go (clock i) refl
    where
      go :
          (tick : Tick)
          → clock i ≡ tick
          → IsAnswer count [] (search_entries names request clock i count [])
      go late t =
          rw (t, search_entries)
            (stopped count [] (finished Code.time_limit_exceeded) h (λ e. absurd cc)
              (λ e. absurd cc))
      go on_time t = rw (t, search_entries) (done count h)
      go cancelled t = rw (t, search_entries) (done count h)
      go unwritable t = rw (t, search_entries) (done count h)
  search_entries-IsAnswer clock i count (e ∷ entries) h =
      go (clock i) refl (search_entries-IsAnswer clock (i + 1) count entries h)
        (λ room. search_entries-IsAnswer clock (i + 1) (count + 1) entries room)
    where
      go :
          (tick : Tick)
          → clock i ≡ tick
          → IsAnswer count entries (search_entries names request clock (i + 1) count entries)
          → (count + 1 ≤ limit_of request.size
              → IsAnswer
                  (count + 1)
                  entries
                  (search_entries names request clock (i + 1) (count + 1) entries))
          → IsAnswer count (e ∷ entries) (search_entries names request clock i count (e ∷ entries))
      go late t skip rest =
          rw (t, search_entries)
            (stopped count (e ∷ entries) (finished Code.time_limit_exceeded) h (λ e. absurd cc)
              (λ e. absurd cc))
      go cancelled t skip rest =
          rw (t, search_entries)
            (stopped count (e ∷ entries) closed h (λ e. absurd cc) (λ e. absurd cc))
      go on_time t skip rest = elim (Bool-cases (is_hit names request e)) [
        | inr miss ↦ rw (t, miss, search_entries) (skipped count e entries _ miss skip)
        | inl hit ↦ elim (Bool-cases (count == limit_of request.size)) [
          | inl last ↦
              rw (t, hit, last, search_entries) (full count e entries hit (==→eq count _ last))
          | inr room ↦
              rw (t, hit, room, search_entries) (sent count e entries _ hit (rest (ground arith)))
        ]
      ]
      go unwritable t skip rest = elim (Bool-cases (is_hit names request e)) [
        | inr miss ↦ rw (t, miss, search_entries) (skipped count e entries _ miss skip)
        | inl hit ↦ elim (Bool-cases (count == limit_of request.size)) [
          | inl last ↦
              rw (t, hit, last, search_entries) (full count e entries hit (==→eq count _ last))
          | inr room ↦
              rw (t, hit, room, search_entries)
                (stopped count (e ∷ entries) closed h (λ e. absurd cc) (λ e. absurd cc))
        ]
      ]

-- A search whose base exists sends the first entries that are in scope and match, in the order of
-- the directory and within the limit; all of them if it succeeds, and as many as the limit allows,
-- but not all, if it fails for its size; whatever the clock and the connection do.
pub run_search-IsAnswer :
    {Dn : Type 0} (names : Names Dn) (directory : Directory Dn) (clock : ℕ → Tick)
    (request : Request Dn)
    → any (λ e. names.same_dn e.parsed_dn request.base) (searched directory request) ≡ true
    → IsAnswer names request 0
        (searched directory request)
        (run_search names directory clock request)
unfolding run_search
run_search-IsAnswer names directory clock request base =
    rw (base, run_search)
      (search_entries-IsAnswer names request clock 0 0 (searched directory request)
        (zero_le_limit request.size))

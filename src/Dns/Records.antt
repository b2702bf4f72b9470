-- ===== src/Dns/Records.antt =====
-- internal/dnsserver/server.go: normalizeARecords, the static names and lookupExternalAddress.
use infrastructure_in_a_box.Prelude.{
  ◌+◌, ◌/◌, ◌≡◌, refl, ap, ◌∙◌, ◌⊎◌, inl, inr, Bool, true, false, ◌||◌, not, [], ◌∷◌, ◌++◌, Option,
  none, some, ◌==◌, length, arith, In,
}
use infrastructure_in_a_box.Prelude.Results.{Result, ok, ◌>>=◌, ◌>>◌, fail_if, >>=-eq-ok}
use infrastructure_in_a_box.Prelude.Text.{Text, Unicode, bytes, text_discrete, text_eq}
use infrastructure_in_a_box.Prelude.Table.{
  Table, get, put, erase, IsMap, put-IsMap, get-put, put-from, put_same, put_other, erase_absent,
}
use infrastructure_in_a_box.Names.Record.{
  normalize_a_record, IsRecordName, normalize_a_record_result,
}
use infrastructure_in_a_box.Lease.Address.{Addr, v4}

pub data RecordError : Type 0 where
  bad_name reserved_name duplicate_name bad_address : Text → RecordError

-- ip.Is4() && ip.IsGlobalUnicast(): not 0.0.0.0, 255.255.255.255, 127/8, 224/4 or 169.254/16.
abbrev pub is_unicast4 : Addr → Bool
is_unicast4 (v4 n) =
    not (
      n == 0 || n == 4294967295 || n / 16777216 == 127 || n / 268435456 == 14 || n / 65536 == 43518)
is_unicast4 _ = false

abbrev pub is_present : {V : Type 0} → Option V → Bool
is_present none = false
is_present (some v) = true

module _ (u : Unicode) (domain : Text) where
  -- One round of the loop over the records.
  unfoldable pub normalize_record :
      Table Text Addr → Text → Addr → Result RecordError (Table Text Addr)
  normalize_record normalized name ip = do
    let canonical = normalize_a_record u name domain
    fail_if (length canonical == 0) (bad_name name)
    fail_if
        (text_eq canonical (bytes "ns." ++ domain)
          || text_eq canonical (bytes "gateway." ++ domain))
        (reserved_name name)
    fail_if (is_present (get text_discrete canonical normalized)) (duplicate_name name)
    fail_if (not (is_unicast4 ip)) (bad_address name)
    ok (put text_discrete canonical ip normalized)

  unfoldable pub normalize_records_into :
      Table Text Addr → Table Text Addr → Result RecordError (Table Text Addr)
  normalize_records_into normalized [] = ok normalized
  normalize_records_into normalized ((name, ip) ∷ records) = do
    next ← normalize_record normalized name ip
    normalize_records_into next records

  -- normalizeARecords, in the order in which the map is walked.
  unfoldable pub normalize_a_records : Table Text Addr → Result RecordError (Table Text Addr)
  unfolding normalize_records_into
  normalize_a_records records = normalize_records_into [] records

  -- Every record has a proper name of its own, none of the server's, and a unicast address.
  pub record AreRecords (t : Table Text Addr) : Type 0 where
    pub distinct : IsMap text_discrete t
    pub proper :
        (name : Text) (ip : Addr)
        → get text_discrete name t ≡ some ip
        → IsRecordName name
          × (text_eq name (bytes "ns." ++ domain) ≡ false)
          × (text_eq name (bytes "gateway." ++ domain) ≡ false)
          × (is_unicast4 ip ≡ true)

  fail_if-ok : (b : Bool) (e : RecordError) (x : Unit {0}) → fail_if b e ≡ ok x → b ≡ false
  fail_if-ok true e x h = cc
  fail_if-ok false e x h = refl

  nonempty-IsRecordName :
      (n : Text) → (n ≡ []) ⊎ IsRecordName n → (length n == 0) ≡ false → IsRecordName n
  nonempty-IsRecordName n (inl e) h = cc
  nonempty-IsRecordName n (inr r) h = r

  put-AreRecords :
      (t : Table Text Addr) (n : Text) (a : Addr)
      → AreRecords t
      → IsRecordName n
      → text_eq n (bytes "ns." ++ domain) ≡ false
      → text_eq n (bytes "gateway." ++ domain) ≡ false
      → is_unicast4 a ≡ true
      → AreRecords (put text_discrete n a t)
  put-AreRecords t n a v r x y z = record {
    distinct = put-IsMap text_discrete n a t v.distinct;
    proper = λ name ip h. elim (text_discrete n name) [
      | yes same ↦
          let q : ip ≡ a = ground (arith, get-put text_discrete n name a t) in
          rw (← same, q) (r, x, y, z)
      | no differs ↦ v.proper name ip (ground (arith, get-put text_discrete n name a t))
    ];
  }

  normalize_record-AreRecords :
      (t t' : Table Text Addr) (name : Text) (ip : Addr)
      → AreRecords t
      → normalize_record t name ip ≡ ok t'
      → AreRecords t'
  unfolding normalize_record
  normalize_record-AreRecords t t' name ip v e =
      let n = normalize_a_record u name domain in
      let (x1, h1, e1) = >>=-eq-ok (fail_if (length n == 0) (bad_name name)) _ e in
      let reserved = text_eq n (bytes "ns." ++ domain) || text_eq n (bytes "gateway." ++ domain) in
      let (x2, h2, e2) = >>=-eq-ok (fail_if reserved (reserved_name name)) _ e1 in
      let (x3, h3, e3) =
        >>=-eq-ok (fail_if (is_present (get text_discrete n t)) (duplicate_name name)) _ e2 in
      let (x4, h4, e4) = >>=-eq-ok (fail_if (not (is_unicast4 ip)) (bad_address name)) _ e3 in
      let q : t' ≡ put text_discrete n ip t = cc in
      let plain : reserved ≡ false = fail_if-ok reserved (reserved_name name) x2 h2 in
      let unicast : not (is_unicast4 ip) ≡ false = fail_if-ok _ (bad_address name) x4 h4 in
      rw q (
        put-AreRecords t n ip v
          (nonempty-IsRecordName n (normalize_a_record_result u name domain)
            (fail_if-ok _ (bad_name name) x1 h1))
          (ground arith) (ground arith) (ground arith))

  normalize_records_into-AreRecords :
      (records t t' : Table Text Addr)
      → AreRecords t
      → normalize_records_into t records ≡ ok t'
      → AreRecords t'
  unfolding normalize_records_into
  normalize_records_into-AreRecords [] t t' v e = let q : t' ≡ t = cc in rw q v
  normalize_records_into-AreRecords ((name, ip) ∷ records) t t' v e =
      let (next, h, e1) = >>=-eq-ok (normalize_record t name ip) _ e in
      normalize_records_into-AreRecords records next t'
        (normalize_record-AreRecords t next name ip v h) e1

  -- A record that is accepted is new, and is added.
  normalize_record-put :
      (t t' : Table Text Addr) (name : Text) (ip : Addr)
      → normalize_record t name ip ≡ ok t'
      → (get text_discrete (normalize_a_record u name domain) t ≡ none)
        × (t' ≡ put text_discrete (normalize_a_record u name domain) ip t)
  unfolding normalize_record
  normalize_record-put t t' name ip e =
      let n = normalize_a_record u name domain in
      let (x1, h1, e1) = >>=-eq-ok (fail_if (length n == 0) (bad_name name)) _ e in
      let reserved = text_eq n (bytes "ns." ++ domain) || text_eq n (bytes "gateway." ++ domain) in
      let (x2, h2, e2) = >>=-eq-ok (fail_if reserved (reserved_name name)) _ e1 in
      let (x3, h3, e3) =
        >>=-eq-ok (fail_if (is_present (get text_discrete n t)) (duplicate_name name)) _ e2 in
      let (x4, h4, e4) = >>=-eq-ok (fail_if (not (is_unicast4 ip)) (bad_address name)) _ e3 in
      (absent (get text_discrete n t) (fail_if-ok _ (duplicate_name name) x3 h3), cc)
    where
      absent : (o : Option Addr) → is_present o ≡ false → o ≡ none
      absent none h = refl
      absent (some v) h = cc

  -- The records were added to a table, each under its normal form, and none of them or of those that
  -- stood there was lost.
  pub record IsAdded (records before after : Table Text Addr) : Type 0 where
    pub kept :
        (n : Text) (ip : Addr)
        → get text_discrete n before ≡ some ip
        → get text_discrete n after ≡ some ip
    pub added :
        (name : Text) (ip : Addr)
        → In (name, ip) records
        → get text_discrete (normalize_a_record u name domain) after ≡ some ip
    pub only :
        (n : Text) (ip : Addr)
        → get text_discrete n after ≡ some ip
        → (get text_discrete n before ≡ some ip)
          ⊎ ((name : Text) × In (name, ip) records × (normalize_a_record u name domain ≡ n))
    pub count : length after ≡ length before + length records

  put-IsAdded :
      (name : Text) (ip : Addr) (records t after : Table Text Addr)
      → get text_discrete (normalize_a_record u name domain) t ≡ none
      → IsAdded records (put text_discrete (normalize_a_record u name domain) ip t) after
      → IsAdded ((name, ip) ∷ records) t after
  put-IsAdded name ip records t after new rest = record {
    kept = λ m a h. rest.kept m a (elim (text_discrete n m) [
      | yes same ↦ cc (rw same at new)
      | no differs ↦ put_other text_discrete n m ip t differs ∙ h
    ]);
    added = λ m a i. elim i [
      | inl e ↦
          let q : m ≡ name = cc in
          let r : a ≡ ip = cc in rw (q, r) (rest.kept n ip (put_same text_discrete n ip t))
      | inr j ↦ rest.added m a j
    ];
    only = λ m a h. elim (rest.only m a h) [
      | inl found ↦ elim (put-from text_discrete n m ip a t found) [
        | inl (same, value) ↦ inr (name, inl (rw value refl), same)
        | inr (differs, old) ↦ inl old
      ]
      | inr (other, i, e) ↦ inr (other, inr i, e)
    ];
    count = omega (arith, rest.count, ap length (erase_absent text_discrete n t new), grown);
  }
    where
      n : Text
      n = normalize_a_record u name domain

      grown :
          length (put text_discrete (normalize_a_record u name domain) ip t)
          ≡ length (erase text_discrete (normalize_a_record u name domain) t) + 1
      grown = unfold put in (omega arith)

  normalize_records_into-IsAdded :
      (records t t' : Table Text Addr)
      → normalize_records_into t records ≡ ok t'
      → IsAdded records t t'
  unfolding normalize_records_into
  normalize_records_into-IsAdded [] t t' e =
      let q : t' ≡ t = cc in
      rw q (record {
        kept = λ n ip h. h;
        added = λ n ip i. absurd i;
        only = λ n ip h. inl h;
        count = omega arith;
      })
  normalize_records_into-IsAdded ((name, ip) ∷ records) t t' e =
      let (next, h, e1) = >>=-eq-ok (normalize_record t name ip) _ e in
      let (new, q) = normalize_record-put t next name ip h in
      put-IsAdded name ip records t t' new
        (rw q at (normalize_records_into-IsAdded records next t' e1))

  -- What the configured records come to: as many records, each under the normal form of its name
  -- with its own address and no others; proper names, none the server's own, and unicast addresses.
  pub record IsNormalized (records t : Table Text Addr) : Type 0 where
    pub proper : AreRecords t
    pub image : IsAdded records [] t

  -- Configured records that are accepted, in whatever order they are read, are all there, none in
  -- the place of another: the result has as many records, each configured address under the normal
  -- form of its name, and no others. The names are proper and none of the server's own, and the
  -- addresses are unicast IPv4.
  pub normalize_a_records-IsNormalized :
      (records t : Table Text Addr) → normalize_a_records records ≡ ok t → IsNormalized records t
  unfolding normalize_a_records get
  normalize_a_records-IsNormalized records t e = record {
    proper =
        normalize_records_into-AreRecords records [] t
          (record { distinct = tt; proper = λ name ip h. cc }) e;
    image = normalize_records_into-IsAdded records [] t e;
  }

-- ===== src/Acme/Revocation.antt =====
-- internal/acmeserver/revocation.go.
use infrastructure_in_a_box.Prelude.{
  ℕ, ◌+◌, ◌-◌, ◌^◌, Bool, true, false, ◌&&◌, ◌||◌, not, List, [], ◌∷◌, Option, none, some,
  if◌then◌else◌, ltb, leb, ◌==◌, length,
}
use infrastructure_in_a_box.Prelude.Text.{Text, bytes, text_discrete, text_eq, has_prefix}
use infrastructure_in_a_box.Prelude.Table.{Table, put, find}
use infrastructure_in_a_box.Lease.Address.{addr_discrete}
use infrastructure_in_a_box.Acme.State.{
  Authorization, Certificate, ChallengeStatus, State, Server, is_proven,
}
use infrastructure_in_a_box.Acme.Store.{Disk, commit}
use infrastructure_in_a_box.Acme.Accounts.{
  Signed, Reply, problem, internal_error, certificate_revoked, revocation_list, failure, forbidden,
  touched, committed, active_account, account_url,
}
use infrastructure_in_a_box.Acme.Orders.{Site, is_some}
use infrastructure_in_a_box.Acme.Issuance.{Leaf, Authority, is_target}

-- validRevocationReason. The payload's integer is `some` where it is not negative.
abbrev pub is_valid_reason : Option ℕ → Bool
is_valid_reason none = false
is_valid_reason (some reason) = leb reason 6 || reason == 9 || reason == 10

-- What the search for a certificate leads to.
pub data Issued : Type 0 where
  unreadable absent : Issued
  issued : Certificate → Issued

-- The loop of revokeCertificate over the certificates.
unfoldable pub find_issued : Authority → Leaf → Table Text Certificate → Issued
unfolding text_discrete
find_issued ca leaf [] = Issued.absent
find_issued ca leaf ((id, c) ∷ certificates) =
    let rest = find_issued ca leaf certificates in
    if not (text_eq c.serial leaf.serial) then rest else (elim (ca.parse_leaf c.pem) [
      | none ↦ Issued.unreadable
      | some stored ↦ if text_eq stored.raw leaf.raw then Issued.issued c else rest
    ])

-- strings.TrimPrefix
unfoldable pub trim_prefix : Text → Text → Text
unfolding has_prefix
trim_prefix s [] = s
trim_prefix [] (c ∷ prefix) = []
trim_prefix (d ∷ s) (c ∷ prefix) =
    let rest = trim_prefix s prefix in if has_prefix (d ∷ s) (c ∷ prefix) then rest else d ∷ s

abbrev pub is_validated : ChallengeStatus → Bool
is_validated ChallengeStatus.valid = true
is_validated _ = false

abbrev pub is_past : ℕ → Option ℕ → Bool
is_past now none = false
is_past now (some t) = leb t now

-- An authorization that proves control of a name still.
abbrev pub proves_name : Site → ℕ → Text → Text → Authorization → Bool
proves_name site now account_id name a =
    text_eq a.account_id account_id
    && text_eq a.name name
    && is_proven a.status
    && is_validated a.challenge_status
    && is_past now a.validated
    && ltb now a.expires
    && is_target a.target (site.lookup name)

unfoldable pub are_controlled : Site → ℕ → State → Text → List Text → Bool
unfolding find text_discrete addr_discrete
are_controlled site now st account_id [] = true
are_controlled site now st account_id (name ∷ names) =
    is_some (site.lookup name)
    && is_some (find (λ id a. proves_name site now account_id name a) st.authorizations)
    && are_controlled site now st account_id names

-- authorizedForCertificate.
abbrev pub is_authorized : Site → ℕ → State → Text → Leaf → Bool
is_authorized site now st account_id leaf =
    not (length leaf.dns_names == 0 || leaf.has_others)
    && are_controlled site now st account_id leaf.dns_names

abbrev pub is_thumbprint : Signed → Option Text → Bool
is_thumbprint signed none = false
is_thumbprint signed (some thumbprint) = text_eq thumbprint signed.thumbprint

-- The account that a request to revoke names with its key.
abbrev pub revoker : Site → Signed → Text
revoker site signed = trim_prefix signed.key_id (account_url site.base_url [])

-- canRevoke, and the activity that it notes.
unfoldable pub can_revoke : Site → ℕ → Server → Signed → Certificate → Leaf → Server × Bool
unfolding active_account are_controlled trim_prefix text_discrete
can_revoke site now s signed c leaf =
    if length signed.key_id == 0
    then (s, is_thumbprint signed leaf.thumbprint)
    else (elim (active_account site.base_url s signed (revoker site signed)) [
      | none ↦ (s, false)
      | some a ↦
          let t = touched now s (revoker site signed) in
          (t, text_eq a.id c.account_id || is_authorized site now t.state a.id leaf)
    ])

-- What refreshCRL gives to the certificate authority for each revoked certificate.
pub record Entry : Type 0 where
  pub serial : ℕ
  pub revoked_at : ℕ
  pub reason : ℕ

-- What is read of a revocation list: `number` is none where it has none.
pub record RevocationList : Type 0 where
  pub number : Option ℕ
  pub next_update : ℕ
  pub is_signed : Bool

-- The decimal parser of serial numbers, which refuses zero and below, the authority that signs
-- a list, and the parser of lists.
pub record Signer : Type 0 where
  pub parse_serial : Text → Option ℕ
  pub create : List Entry → ℕ → Option Text
  pub parse : Text → Option RevocationList

abbrev pub with_entry : Certificate → ℕ → Option ℕ → Option (List Entry) → Option (List Entry)
with_entry c time (some serial) (some entries) =
    some (record { serial = serial; revoked_at = time; reason = c.reason } ∷ entries)
with_entry c time _ _ = none

-- The loop of refreshCRL.
unfoldable pub entries_of : Signer → ℕ → Table Text Certificate → Option (List Entry)
entries_of signer now [] = some []
entries_of signer now ((id, c) ∷ certificates) =
    let rest = entries_of signer now certificates in
    elim c.revoked_at [
      | none ↦ rest
      | some time ↦
          if ltb now c.not_after
          then with_entry c time (signer.parse_serial c.serial) rest
          else rest
    ]

-- The sort by serial number.
unfoldable pub insert_entry : Entry → List Entry → List Entry
insert_entry e [] = e ∷ []
insert_entry e (f ∷ entries) =
    let rest = insert_entry e entries in
    if leb e.serial f.serial then e ∷ (f ∷ entries) else f ∷ rest

unfoldable pub sort_entries : List Entry → List Entry
unfolding insert_entry
sort_entries [] = []
sort_entries (e ∷ entries) = insert_entry e (sort_entries entries)

abbrev pub has_number : ℕ → Option ℕ → Bool
has_number number none = false
has_number number (some found) = found == number

-- What the parsed list is checked for.
abbrev pub is_good_list : ℕ → ℕ → Option RevocationList → Bool
is_good_list now number none = false
is_good_list now number (some list) =
    has_number number list.number && ltb now list.next_update && list.is_signed

abbrev pub with_list : ℕ → ℕ → Text → Option RevocationList → State → Option State
with_list now number der none st = none
with_list now number der (some list) st =
    if is_good_list now number (some list)
    then some (record st { crl = der; crl_number = number; crl_next_update = list.next_update })
    else none

-- refreshCRL; none stands for an error.
unfoldable pub refresh_crl : Signer → ℕ → State → Option State
unfolding entries_of sort_entries
refresh_crl signer now st =
    if st.crl_number == 2 ^ 63 - 1 then none else (elim (entries_of signer now st.certificates) [
      | none ↦ none
      | some entries ↦ elim (signer.create (sort_entries entries) (st.crl_number + 1)) [
        | none ↦ none
        | some der ↦ with_list now (st.crl_number + 1) der (signer.parse der) st
      ]
    ])

abbrev pub revoked : ℕ → ℕ → Certificate → Certificate
revoked now reason c = record c { revoked_at = some now; reason = reason }

abbrev pub with_revoked : ℕ → ℕ → Certificate → State → State
with_revoked now reason c st = record st {
  certificates = put text_discrete c.id (revoked now reason c) st.certificates;
}

-- The snapshot that a refreshed list is part of, and the reply where it could be made.
abbrev pub commit_list : ℕ → Disk → Server → Option State → Reply → Server × Reply
commit_list now disk s none reply = (s, internal_error)
commit_list now disk s (some next) reply = committed (commit now disk s next) reply

unfoldable pub revoke_issued : Signer → ℕ → Disk → Server → Certificate → ℕ → Server × Reply
unfolding refresh_crl commit put text_discrete
revoke_issued signer now disk s c reason =
    if is_some c.revoked_at
    then (s, failure 400 (bytes "alreadyRevoked"))
    else commit_list now disk s (refresh_crl signer now (with_revoked now reason c s.state))
        certificate_revoked

-- What a request to revoke holds: `leaf` is none where the certificate was refused.
pub record RevocationInput : Type 0 where
  pub reason : Option ℕ
  pub leaf : Option Leaf

abbrev pub reason_of : Option ℕ → ℕ
reason_of none = 0
reason_of (some reason) = reason

abbrev pub revoke_if : Signer → ℕ → Disk → Certificate → ℕ → Server × Bool → Server × Reply
revoke_if signer now disk c reason (s, true) = revoke_issued signer now disk s c reason
revoke_if signer now disk c reason (s, false) = (s, problem forbidden)

-- revokeCertificate, for a payload that was decoded.
unfoldable pub revoke_certificate :
    Site → Authority → Signer → ℕ → Disk → Server → Signed → RevocationInput → Server × Reply
unfolding find_issued can_revoke revoke_issued text_discrete
revoke_certificate site ca signer now disk s signed input =
    if not (is_valid_reason input.reason)
    then (s, failure 400 (bytes "badRevocationReason"))
    else (elim input.leaf [
      | none ↦ (s, failure 400 (bytes "malformed"))
      | some leaf ↦ elim (find_issued ca leaf s.state.certificates) [
        | unreadable ↦ (s, internal_error)
        | absent ↦ (s, failure 400 (bytes "malformed"))
        | issued c ↦
            if length c.id == 0
            then (s, failure 400 (bytes "malformed"))
            else revoke_if signer now disk c (reason_of input.reason)
                (can_revoke site now s signed c leaf)
      ]
    ])

abbrev pub minute : ℕ
minute = 60_000_000_000

-- serveCRL.
unfoldable pub serve_crl : Signer → ℕ → Disk → Server → Server × Reply
unfolding refresh_crl commit
serve_crl signer now disk s =
    if length s.state.crl == 0 || not (ltb (now + minute) s.state.crl_next_update)
    then (elim (refresh_crl signer now s.state) [
      | none ↦ (s, internal_error)
      | some next ↦ committed (commit now disk s next) (revocation_list next.crl)
    ])
    else (s, revocation_list s.state.crl)

-- ===== src/Lease/Persistence.antt =====
-- internal/lease/persistence.go: what is saved, and what a restart takes back.
use infrastructure_in_a_box.Prelude.{
  ℕ, Bool, true, false, ◌&&◌, ◌||◌, not, List, [], ◌∷◌, ◌++◌, Option, none, some, if◌then◌else◌,
  ◌==◌, any, length,
}
use infrastructure_in_a_box.Prelude.Int.{ℤ, pos, negsuc}
use infrastructure_in_a_box.Prelude.Results.{Result, ok, err, ◌>>=◌, ◌>>◌, fail_if}
use infrastructure_in_a_box.Prelude.Text.{Text, Unicode, bytes, dot, text_eq, text_discrete}
use infrastructure_in_a_box.Prelude.Table.{Table, get, put}
use infrastructure_in_a_box.Names.Hostname.{normalize_hostname}
use infrastructure_in_a_box.Lease.Address.{Addr, addr_discrete, addr_le, occupies}
use infrastructure_in_a_box.Lease.State.{
  Lease, Config, State, after, new_state, in_pool, valid_client_id,
}

pub record DeclinedAddress : Type 0 where
  pub ip : Addr
  pub expires_at : ℕ

pub record PersistedState : Type 0 where
  pub version : ℤ
  pub leases : List Lease
  pub declined : List DeclinedAddress

-- What opening and decoding the lease file may find. JSON itself is encoding/json's.
pub data File : Type 0 where
  missing unreadable undecodable trailing_data : File
  saved : PersistedState → File

-- The steps of `persist` that may fail.
pub data Stage : Type 0 where
  make_directory create_temporary encode sync close replace : Stage

-- Which step fails in one call, if any does: the first that an I/O error reaches.
pub record Disk : Type 0 where
  pub failure : Option Stage

-- slices.SortFunc by address, on lists with no address twice.
module _ {A : Type 0} (ip_of : A → Addr) where
  insert_sorted : A → List A → List A
  unfolding addr_le
  insert_sorted a [] = a ∷ []
  insert_sorted a (b ∷ l) = if addr_le (ip_of a) (ip_of b) then a ∷ b ∷ l else b ∷ insert_sorted a l

  unfoldable pub sort_by_ip : List A → List A
  unfolding insert_sorted
  sort_by_ip [] = []
  sort_by_ip (a ∷ l) = insert_sorted a (sort_by_ip l)

unfoldable pub lease_list : Table Text Lease → List Lease
lease_list [] = []
lease_list ((k, l) ∷ m) = l ∷ lease_list m

unfoldable pub declined_list : Table Addr ℕ → List DeclinedAddress
declined_list [] = []
declined_list ((ip, until) ∷ m) = record { ip = ip; expires_at = until } ∷ declined_list m

unfoldable pub to_saved : State → PersistedState
unfolding sort_by_ip lease_list declined_list
to_saved s = record {
  version = pos 1;
  leases = sort_by_ip (λ (l : Lease). l.ip) (lease_list s.leases);
  declined = sort_by_ip (λ (d : DeclinedAddress). d.ip) (declined_list s.declined);
}

-- Manager.persist: the file afterwards, and the step that failed. The temporary file is written
-- beside the lease file and takes its place in the last step.
unfoldable pub persist : Config → Disk → File → State → File × Option Stage
persist cfg disk file next = if length cfg.file == 0 then (file, none) else (elim disk.failure [
  | some stage ↦ (file, some stage)
  | none ↦ (saved (to_saved next), none)
])

pub data RestoreError : Type 0 where
  open_failed decode_failed trailing unsupported_version : RestoreError
  invalid_lease invalid_hostname duplicate_client duplicate_address : RestoreError
  duplicate_hostname invalid_declined occupied_declined : RestoreError

-- The variables of the loops in `restore`: the state and the two sets of what has been seen.
pub record Restoring : Type 0 where
  pub leases : Table Text Lease
  pub declined : Table Addr ℕ
  pub addresses : List Addr
  pub names : List Text

abbrev pub is_reserved : List Text → Text → Bool
is_reserved reserved name = any (λ r. text_eq r name) reserved

-- The name of the DNS server itself.
abbrev pub ns_name : Text → Text
ns_name domain = bytes "ns." ++ (domain ++ (dot ∷ []))

abbrev pub has_key : {V : Type 0} → Option V → Bool
has_key none = false
has_key (some v) = true

abbrev pub nothing_seen : Restoring
nothing_seen = record { leases = []; declined = []; addresses = []; names = [] }

abbrev pub restored : Restoring → State
restored r = record { leases = r.leases; offers = []; declined = r.declined }

abbrev pub is_version_one : ℤ → Bool
is_version_one (pos n) = n == 1
is_version_one (negsuc n) = false

-- A hostname that a lease file may not hold.
unfoldable pub refused_hostname : Unicode → Config → Text → Bool
unfolding normalize_hostname text_discrete
refused_hostname u cfg name =
    not (length name == 0)
    && (not (text_eq (normalize_hostname u name cfg.domain) name)
        || text_eq name (ns_name cfg.domain))

-- A lease keeps its address when its name has become reserved.
unfoldable pub stored_lease : List Text → Lease → Lease
unfolding text_discrete
stored_lease reserved l = if is_reserved reserved l.hostname then record l { hostname = [] } else l

-- The end of a round.
unfoldable pub remember_lease : List Text → Restoring → Lease → Restoring
unfolding put text_discrete stored_lease
remember_lease reserved r l = record {
  leases = put text_discrete l.client_id (stored_lease reserved l) r.leases;
  declined = r.declined;
  addresses = l.ip ∷ r.addresses;
  names = if length l.hostname == 0 then r.names else l.hostname ∷ r.names;
}

module _ (u : Unicode) (cfg : Config) (reserved : List Text) (now : ℕ) where
  -- One round of the first loop.
  unfoldable pub restore_lease : Restoring → Lease → Result RestoreError Restoring
  restore_lease r l = do
    fail_if (not (valid_client_id l.client_id) || not (in_pool cfg l.ip) || l.expires_at == 0)
        invalid_lease
    fail_if (refused_hostname u cfg l.hostname) invalid_hostname
    if not (after now l.expires_at) then ok r else (do
      fail_if (has_key (get text_discrete l.client_id r.leases)) duplicate_client
      fail_if (occupies r.addresses l.ip) duplicate_address
      fail_if (not (length l.hostname == 0) && any (λ n. text_eq n l.hostname) r.names)
          duplicate_hostname
      ok (remember_lease reserved r l))

  unfoldable pub restore_leases : Restoring → List Lease → Result RestoreError Restoring
  restore_leases r [] = ok r
  restore_leases r (l ∷ ls) = do r' ← restore_lease r l; restore_leases r' ls

  -- One round of the second loop.
  unfoldable pub restore_declined : Restoring → DeclinedAddress → Result RestoreError Restoring
  restore_declined r d = do
    fail_if (not (in_pool cfg d.ip) || d.expires_at == 0) invalid_declined
    if not (after now d.expires_at) then ok r else (do
      fail_if (occupies r.addresses d.ip) occupied_declined
      ok (record r {
        declined = put addr_discrete d.ip d.expires_at r.declined;
        addresses = d.ip ∷ r.addresses;
      }))

  unfoldable pub restore_all_declined :
      Restoring → List DeclinedAddress → Result RestoreError Restoring
  restore_all_declined r [] = ok r
  restore_all_declined r (d ∷ ds) = do r' ← restore_declined r d; restore_all_declined r' ds

  unfoldable pub restore_saved : PersistedState → Result RestoreError State
  restore_saved p = do
    fail_if (not (is_version_one p.version)) unsupported_version
    r ← restore_leases nothing_seen p.leases
    r' ← restore_all_declined r p.declined
    ok (restored r')

  unfoldable pub restore_file : File → Result RestoreError State
  restore_file missing = ok new_state
  restore_file unreadable = err open_failed
  restore_file undecodable = err decode_failed
  restore_file trailing_data = err trailing
  restore_file (saved p) = restore_saved p

  -- Manager.restore.
  unfoldable pub restore : File → Result RestoreError State
  unfolding restore_file
  restore file = if length cfg.file == 0 then ok new_state else restore_file file

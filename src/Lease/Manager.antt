-- ===== src/Lease/Manager.antt =====
-- internal/lease/manager.go: the constructor and the exported methods. Each holds the manager's
-- mutex throughout, so a call is one step; it is given the time that it reads from the clock.
use infrastructure_in_a_box.Prelude.{
  ℕ, ◌*◌, ◌||◌, not, List, [], ◌∷◌, ◌++◌, Option, none, some, if◌then◌else◌, ◌==◌, length,
}
use infrastructure_in_a_box.Prelude.Int.{ℤ, is_negative, pos_part}
use infrastructure_in_a_box.Prelude.Results.{Result, ok, err, ◌>>=◌, ◌>>◌, fail_if}
use infrastructure_in_a_box.Prelude.Text.{
  Text, Unicode, bytes, dot, text_eq, text_discrete, is_ascii, to_lower, trim_suffix,
}
use infrastructure_in_a_box.Prelude.Table.{get}
use infrastructure_in_a_box.Names.Labels.{valid_dns_name}
use infrastructure_in_a_box.Names.Hostname.{normalize_hostname, canonical_domain}
use infrastructure_in_a_box.Lease.Address.{Addr, addr_le, is4, unmap}
use infrastructure_in_a_box.Lease.State.{Lease, Config, State, expire}
use infrastructure_in_a_box.Lease.Persistence.{File, Stage, RestoreError, restore, ns_name}

pub data Error : Type 0 where
  pool_exhausted unavailable : Error
  persist_failed : Stage → Error

-- The manager, with the lease file that it alone owns.
pub record Manager : Type 0 where
  pub cfg : Config
  pub reserved : List Text
  pub state : State
  pub file : File

pub data ConfigError : Type 0 where
  bad_pool bad_domain bad_lease_duration bad_duration : ConfigError
  non_ascii_name not_under_domain : Text → ConfigError
  restore_failed : RestoreError → ConfigError

-- Config as a caller gives it: durations are signed.
pub record Settings : Type 0 where
  pub pool_start : Addr
  pub pool_end : Addr
  pub domain : Text
  pub lease_duration : ℤ
  pub offer_duration : ℤ
  pub decline_duration : ℤ
  pub reserved_names : List Text
  pub file : Text

abbrev pub second : ℕ
second = 1_000_000_000

-- A duration of zero takes its default.
abbrev pub or_default : ℤ → ℕ → ℕ
or_default d standard = if pos_part d == 0 then standard else pos_part d

abbrev pub gateway_name : Text → Text
gateway_name domain = bytes "gateway." ++ (domain ++ (dot ∷ []))

abbrev pub from_restored : {A : Type 0} → Result RestoreError A → Result ConfigError A
from_restored (ok a) = ok a
from_restored (err e) = err (restore_failed e)

module _ (u : Unicode) where
  -- The loop over cfg.ReservedNames.
  unfoldable pub reserve_names : Text → List Text → List Text → Result ConfigError (List Text)
  reserve_names domain reserved [] = ok reserved
  reserve_names domain reserved (name ∷ names) = do
    fail_if (not (is_ascii name)) (non_ascii_name name)
    let canonical = normalize_hostname u name domain
    let apex = text_eq (trim_suffix (to_lower u name) (dot ∷ [])) domain
    fail_if (length canonical == 0 || apex) (not_under_domain name)
    reserve_names domain (canonical ∷ reserved) names

  -- The validated configuration.
  abbrev pub configured : Settings → Config
  configured settings = record {
    pool_start = unmap settings.pool_start;
    pool_end = unmap settings.pool_end;
    domain = canonical_domain u settings.domain;
    lease_duration = pos_part settings.lease_duration;
    offer_duration = or_default settings.offer_duration (60 * second);
    decline_duration = or_default settings.decline_duration (600 * second);
    file = settings.file;
  }

  -- newManager.
  unfoldable pub new_manager : Settings → File → ℕ → Result ConfigError Manager
  new_manager settings file now = do
    let cfg = configured settings
    fail_if
        (not (is4 cfg.pool_start)
          || not (is4 cfg.pool_end)
          || not (addr_le cfg.pool_start cfg.pool_end))
        bad_pool
    fail_if (not (valid_dns_name cfg.domain)) bad_domain
    fail_if (is_negative settings.lease_duration || cfg.lease_duration == 0) bad_lease_duration
    fail_if (is_negative settings.offer_duration || is_negative settings.decline_duration)
        bad_duration
    reserved ←
        reserve_names cfg.domain (ns_name cfg.domain ∷ gateway_name cfg.domain ∷ [])
          settings.reserved_names
    state ← from_restored (restore u cfg reserved now file)
    ok (record { cfg = cfg; reserved = reserved; state = state; file = file })

-- m.expire(m.now()), the first step of every method.
abbrev pub expired : ℕ → Manager → Manager
expired now m = record m { state = expire now m.state }

abbrev pub hostname_of : Option Lease → Text
hostname_of none = []
hostname_of (some l) = l.hostname

abbrev pub lease_of : State → Text → Option Lease
lease_of s client = get text_discrete client s.leases

abbrev pub offer_of : State → Text → Option Lease
offer_of s client = get text_discrete client s.offers

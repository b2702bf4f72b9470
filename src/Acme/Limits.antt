-- ===== src/Acme/Limits.antt =====
-- internal/acmeserver/limits.go: how many accounts and orders a lease may create.
use infrastructure_in_a_box.Prelude.{
  ℕ, ◌+◌, ◌-◌, ◌*◌, ◌/◌, Bool, true, false, ◌&&◌, ◌||◌, not, List, [], ◌∷◌, ◌++◌, Option, none,
  some, max, if◌then◌else◌, ltb, leb, ◌==◌, length,
}
use infrastructure_in_a_box.Prelude.Text.{Text, text_discrete}
use infrastructure_in_a_box.Lease.Address.{Addr, addr_eq, unmap}
use infrastructure_in_a_box.Lease.State.{Lease}
use infrastructure_in_a_box.Prelude.Table.{Table, get, put}

-- The times of the creations that a lease is charged with, oldest first.
pub record LeaseLimit : Type 0 where
  pub accounts : List ℕ
  pub orders : List ℕ

abbrev second : ℕ
second = 1_000_000_000

-- What is limited: the number of creations in a window, and the records in all.
pub record Quotas : Type 0 where
  pub lease_accounts : ℕ
  pub lease_orders : ℕ
  pub account_window : ℕ
  pub order_window : ℕ
  pub records : ℕ

-- The limits of the server.
abbrev pub quotas : Quotas
quotas = record {
  lease_accounts = 8;
  lease_orders = 32;
  account_window = 86400 * second;
  order_window = 3600 * second;
  records = 10000;
}

-- `stamp.After(now.Add(-window))`, without subtraction.
abbrev pub is_recent : ℕ → ℕ → ℕ → Bool
is_recent now window stamp = ltb now (stamp + window)

-- recentTimes.
unfoldable pub recent_times : ℕ → ℕ → List ℕ → List ℕ
recent_times now window [] = []
recent_times now window (stamp ∷ times) =
    if is_recent now window stamp
    then stamp ∷ recent_times now window times
    else recent_times now window times

-- What allowCreation answers: yes, 403, or 429 with the seconds of Retry-After.
pub data Verdict : Type 0 where
  allowed no_lease : Verdict
  rate_limited : ℕ → Verdict

-- rateLimited: whole seconds, rounded up, at least one.
abbrev pub retry_after : ℕ → ℕ
retry_after retry = max 1 ((retry + second - 1) / second)

-- An entry that is missing reads as an empty one.
abbrev pub limit_of : Option LeaseLimit → LeaseLimit
limit_of none = record { accounts = []; orders = [] }
limit_of (some l) = l

abbrev pub is_charged : Option LeaseLimit → Bool
is_charged none = false
is_charged (some l) = true

abbrev pub first_or_zero : List ℕ → ℕ
first_or_zero [] = 0
first_or_zero (stamp ∷ times) = stamp

module _ (q : Quotas) (now : ℕ) where
  -- The kind of creation chooses the history, the maximum and the window.
  abbrev pub history : Bool → LeaseLimit → List ℕ
  history account l = if account then l.accounts else l.orders

  abbrev pub maximum : Bool → ℕ
  maximum account = if account then q.lease_accounts else q.lease_orders

  abbrev pub window : Bool → ℕ
  window account = if account then q.account_window else q.order_window

  abbrev pub recent : Bool → LeaseLimit → List ℕ
  recent account l = recent_times now (window account) (history account l)

  -- The entries with a recent creation.
  unfoldable pub live_limits : Table Text LeaseLimit → ℕ
  live_limits [] = 0
  live_limits ((source, l) ∷ limits) =
      (if not (length (recent true l) == 0) || not (length (recent false l) == 0) then 1 else 0)
      + live_limits limits

  -- allowCreation.
  unfoldable pub allow_creation : Table Text LeaseLimit → Text → Bool → Verdict
  unfolding recent_times get text_discrete
  allow_creation limits source account =
      let entry = get text_discrete source limits in
      let stamps = recent account (limit_of entry) in
      if length source == 0
      then no_lease
      else if leb (maximum account) (length stamps)
      then rate_limited (retry_after (first_or_zero stamps + window account - now))
      else if not (is_charged entry)
          && leb q.records (length limits)
          && leb q.records (live_limits limits)
      then rate_limited (retry_after q.order_window)
      else allowed

  abbrev pub charged : Bool → LeaseLimit → LeaseLimit
  charged account l =
      if account
      then record l { accounts = recent true l ++ (now ∷ []) }
      else record l { orders = recent false l ++ (now ∷ []) }

  -- recordCreation.
  unfoldable pub record_creation : Table Text LeaseLimit → Text → Bool → Table Text LeaseLimit
  unfolding recent_times get put text_discrete
  record_creation limits source account =
      put text_discrete source (charged account (limit_of (get text_discrete source limits))) limits

-- sourceLease: the client of the live lease of the peer's address, which is none where the peer's
-- address could not be read.
unfoldable pub source_lease : ℕ → (Addr → Option Lease) → Option Addr → Option Text
unfolding unmap
source_lease now lookup_ip none = none
source_lease now lookup_ip (some peer) = elim (lookup_ip (unmap peer)) [
  | none ↦ none
  | some l ↦
      if addr_eq l.ip (unmap peer) && not (length l.client_id == 0) && ltb now l.expires_at
      then some l.client_id
      else none
]

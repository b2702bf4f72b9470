-- ===== src/Acme/Quota.antt =====
-- What the limits on creations guarantee, over all that a server creates for a lease.
use infrastructure_in_a_box.Prelude.{
  ℕ, ◌≡◌, ◌≤◌, Bool, true, false, ◌&&◌, List, [], ◌∷◌, ◌++◌, if◌then◌else◌,
}
use infrastructure_in_a_box.Prelude.Text.{Text, text_discrete, text_eq}
use infrastructure_in_a_box.Prelude.Table.{Table, get}
use infrastructure_in_a_box.Acme.Limits.{
  LeaseLimit, quotas, allowed, recent_times, limit_of, recent, window, allow_creation,
  record_creation,
}
use infrastructure_in_a_box.Acme.Store.{prune_limits}

-- A creation: the lease that it is charged to, whether it is an account's, and its time.
pub record Creation : Type 0 where
  pub source : Text
  pub account : Bool
  pub made_at : ℕ

abbrev pub same_kind : Bool → Bool → Bool
same_kind true b = b
same_kind false true = false
same_kind false false = true

abbrev pub is_charged_to : Text → Bool → Creation → Bool
is_charged_to source account c = text_eq c.source source && same_kind c.account account

-- The times of the creations of a kind for a lease, in a log with the latest first.
abbrev pub made : Text → Bool → List Creation → List ℕ
made source account [] = []
made source account (c ∷ cs) =
    if is_charged_to source account c
    then made source account cs ++ (c.made_at ∷ [])
    else made source account cs

-- What has been created, up to a time that does not run back, and the limits that the server keeps.
-- Every commit prunes them; one that creates something has asked before it, and records it on limits
-- that were pruned, as newAccount and newOrder do.
pub data Past : ℕ → List Creation → Table Text LeaseLimit → Type 0 where
  started : Past 0 [] []
  pruned :
      {then_at : ℕ} {log : List Creation} {limits : Table Text LeaseLimit} (now : ℕ)
      → then_at ≤ now
      → Past then_at log limits
      → Past now log (prune_limits now limits)
  created :
      {then_at : ℕ} {log : List Creation} {limits : Table Text LeaseLimit} (now : ℕ) (source : Text)
      (account : Bool)
      → then_at ≤ now
      → allow_creation quotas now limits source account ≡ allowed
      → Past then_at log limits
      → Past now
          (record { source = source; account = account; made_at = now } ∷ log)
          (prune_limits now (record_creation quotas now (prune_limits now limits) source account))

-- The recent times that the limits hold are those of the log, now and later.
abbrev Agrees : ℕ → List Creation → Table Text LeaseLimit → Type 0
Agrees now log limits =
    (later : ℕ) (source : Text) (account : Bool)
    → now ≤ later
    → recent quotas later account (limit_of (get text_discrete source limits))
      ≡ recent_times later (window quotas 0 account) (made source account log)

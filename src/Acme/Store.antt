-- ===== src/Acme/Store.antt =====
-- internal/acmeserver/store.go: prune, commit, and what restore changes in a snapshot.
use infrastructure_in_a_box.Prelude.{
  ℕ, ◌+◌, ◌*◌, Bool, true, false, ◌&&◌, ◌||◌, not, List, [], ◌∷◌, ◌++◌, Option, none, some,
  if◌then◌else◌, ltb, ◌==◌, length,
}
use infrastructure_in_a_box.Prelude.Text.{Text, text_discrete, text_eq}
use infrastructure_in_a_box.Prelude.Table.{Table, get, erase, retain, update_all}
use infrastructure_in_a_box.Acme.Limits.{LeaseLimit, quotas, recent_times}
use infrastructure_in_a_box.Acme.State.{
  ChallengeStatus, Order, Authorization, Account, State, Server, is_failed, is_processing,
}

abbrev day : ℕ
day = 86400 * 1_000_000_000

abbrev pub order_lifetime : ℕ
order_lifetime = day

abbrev pub account_idle_lifetime : ℕ
account_idle_lifetime = 30 * day

-- An order that prune leaves.
abbrev pub is_kept : ℕ → Order → Bool
is_kept now o = not (is_failed o.status) && ltb now o.expires

unfoldable pub erase_all : {V : Type 0} → List Text → Table Text V → Table Text V
unfolding erase text_discrete
erase_all [] m = m
erase_all (k ∷ ks) m = erase_all ks (erase text_discrete k m)

-- The authorizations and the certificates that the dropped orders take with them.
unfoldable pub dropped_authorizations : ℕ → Table Text Order → List Text
dropped_authorizations now [] = []
dropped_authorizations now ((id, o) ∷ orders) =
    if is_kept now o
    then dropped_authorizations now orders
    else o.auth_ids ++ dropped_authorizations now orders

unfoldable pub dropped_certificates : ℕ → Table Text Order → List Text
dropped_certificates now [] = []
dropped_certificates now ((id, o) ∷ orders) =
    if is_kept now o
    then dropped_certificates now orders
    else o.certificate_id ∷ dropped_certificates now orders

unfoldable pub is_referenced : ℕ → Text → Table Text Order → Bool
unfolding text_discrete
is_referenced now account [] = false
is_referenced now account ((id, o) ∷ orders) =
    (is_kept now o && text_eq o.account_id account) || is_referenced now account orders

abbrev pub active_at : Option ℕ → ℕ
active_at none = 0
active_at (some t) = t

-- The last activity, which may be in memory only.
abbrev pub with_activity : Table Text ℕ → Text → Account → Account
with_activity activity id a =
    let active = active_at (get text_discrete id activity) in
    if ltb a.last_active active then record a { last_active = active } else a

abbrev pub is_idle : ℕ → Account → Bool
is_idle now a = not (a.last_active == 0) && not (ltb now (a.last_active + account_idle_lifetime))

-- The loop over the accounts.
unfoldable pub prune_accounts :
    ℕ → Table Text ℕ → Table Text Order → Table Text Account → Table Text Account
unfolding get text_discrete is_referenced recent_times
prune_accounts now activity orders [] = []
prune_accounts now activity orders ((id, account) ∷ accounts) =
    let a = with_activity activity id account in
    let rest = prune_accounts now activity orders accounts in
    if is_idle now a && not (is_referenced now id orders)
    then rest
    else (id, record a { recent_orders = recent_times now order_lifetime a.recent_orders }) ∷ rest

abbrev pub recent_limit : ℕ → LeaseLimit → LeaseLimit
recent_limit now l = record {
  accounts = recent_times now quotas.account_window l.accounts;
  orders = recent_times now quotas.order_window l.orders;
}

unfoldable pub prune_limits : ℕ → Table Text LeaseLimit → Table Text LeaseLimit
unfolding recent_times
prune_limits now [] = []
prune_limits now ((source, limit) ∷ limits) =
    let l = recent_limit now limit in
    if length l.accounts == 0 && length l.orders == 0
    then prune_limits now limits
    else (source, l) ∷ prune_limits now limits

-- prune.
unfoldable pub prune : ℕ → Table Text ℕ → State → State
unfolding retain erase_all dropped_authorizations dropped_certificates prune_accounts prune_limits
prune now activity st = record st {
  orders = retain (is_kept now) st.orders;
  authorizations = erase_all (dropped_authorizations now st.orders) st.authorizations;
  certificates = erase_all (dropped_certificates now st.orders) st.certificates;
  accounts = prune_accounts now activity st.orders st.accounts;
  lease_limits = prune_limits now st.lease_limits;
}

-- How writing the snapshot goes: it fails before the rename, or behind it, or not at all.
pub data Disk : Type 0 where
  lost renamed synced : Disk

-- commit: the rename is the commit point, and `false` stands for an error.
unfoldable pub commit : ℕ → Disk → Server → State → Server × Bool
unfolding prune
commit now lost s next = (s, false)
commit now renamed s next =
    let st = prune now s.activity next in (record { state = st; activity = []; stored = st }, false)
commit now synced s next =
    let st = prune now s.activity next in (record { state = st; activity = []; stored = st }, true)

-- An interrupted validation proves nothing.
abbrev pub recovered : Authorization → Authorization
recovered a =
    if is_processing a.challenge_status
    then record a { challenge_status = ChallengeStatus.pending }
    else a

-- The end of restore, on a snapshot that has activity for every account.
unfoldable pub recover : State → State
unfolding update_all
recover st = record st { authorizations = update_all recovered st.authorizations }

-- The server that restore makes of the file.
unfoldable pub restart : Server → Server
unfolding recover
restart s = record { state = recover s.stored; activity = []; stored = s.stored }

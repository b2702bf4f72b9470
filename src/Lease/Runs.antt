-- ===== src/Lease/Runs.antt =====
-- Any sequence of calls of the manager's methods, each at its own time and with its own luck in
-- writing the file. The mutex makes every interleaving of the servers such a sequence.
use infrastructure_in_a_box.Prelude.{ℕ, List, [], ◌∷◌}
use infrastructure_in_a_box.Prelude.Text.{Text, Unicode}
use infrastructure_in_a_box.Lease.Address.{Addr, unmap}
use infrastructure_in_a_box.Lease.Persistence.{Disk}
use infrastructure_in_a_box.Lease.Manager.{Manager, expired}
use infrastructure_in_a_box.Lease.Offers.{offer_with_fallback}
use infrastructure_in_a_box.Lease.Commits.{commit_with_fallback, release, decline}
use infrastructure_in_a_box.Lease.Queries.{lookup_name, has_name, lookup_ip}
use infrastructure_in_a_box.Lease.Valid.{IsValid, expired-IsValid, offer_with_fallback-IsValid}
use infrastructure_in_a_box.Lease.Steps.{
  commit_live-IsValid, release_live-IsValid, decline_live-IsValid,
}

pub data Call : Type 0 where
  offers : Text → Addr → Text → Text → Call
  commits : Text → Addr → Text → Text → Call
  releases declines : Text → Addr → Call
  looks_up_name asks_name : Text → Call
  looks_up_ip : Addr → Call

pub record Timed : Type 0 where
  pub now : ℕ
  pub disk : Disk
  pub call : Call

module _ (u : Unicode) where
  unfoldable pub perform : ℕ → Disk → Manager → Call → Manager
  perform now disk m (offers client ip hostname fallback) =
      (offer_with_fallback u now m client ip hostname fallback).0
  perform now disk m (commits client ip hostname fallback) =
      (commit_with_fallback u now disk m client ip hostname fallback).0
  perform now disk m (releases client ip) = (release now disk m client ip).0
  perform now disk m (declines client ip) = (decline now disk m client ip).0
  perform now disk m (looks_up_name name) = (lookup_name u now m name).0
  perform now disk m (asks_name name) = (has_name u now m name).0
  perform now disk m (looks_up_ip ip) = (lookup_ip now m ip).0

  unfoldable pub run : Manager → List Timed → Manager
  unfolding perform
  run m [] = m
  run m (t ∷ ts) = run (perform t.now t.disk m t.call) ts

  pub perform-IsValid :
      (now : ℕ) (disk : Disk) (m : Manager) (c : Call) → IsValid m → IsValid (perform now disk m c)
  unfolding perform commit_with_fallback release decline lookup_name has_name lookup_ip
  perform-IsValid now disk m (offers client ip hostname fallback) v =
      offer_with_fallback-IsValid u now m client ip hostname fallback v
  perform-IsValid now disk m (commits client ip hostname fallback) v =
      commit_live-IsValid u now disk (expired now m) client (unmap ip) hostname fallback
        (expired-IsValid now m v)
  perform-IsValid now disk m (releases client ip) v =
      release_live-IsValid disk (expired now m) client (unmap ip) (expired-IsValid now m v)
  perform-IsValid now disk m (declines client ip) v =
      decline_live-IsValid now disk (expired now m) client (unmap ip) (expired-IsValid now m v)
  perform-IsValid now disk m _ v = expired-IsValid now m v

  -- From a valid manager every sequence of method calls, at any times and with any failures of the
  -- disk, leads to a valid manager: each address that a client holds lies in the pool, belongs to
  -- that client alone and is not set aside, and each registered hostname is proper, unreserved and
  -- registered once.
  pub run-IsValid : (m : Manager) (ts : List Timed) → IsValid m → IsValid (run m ts)
  unfolding run
  run-IsValid m [] v = v
  run-IsValid m (t ∷ ts) v =
      run-IsValid (perform t.now t.disk m t.call) ts (perform-IsValid t.now t.disk m t.call v)

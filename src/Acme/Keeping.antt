-- ===== src/Acme/Keeping.antt =====
-- Every handler of the ACME server keeps the snapshot in memory and the one on disk sound, however
-- writing the file goes.
use infrastructure_in_a_box.Prelude.{
  ℕ, ◌≡◌, refl, inl, inr, Bool, true, false, ◌&&◌, Option, none, some, arith, Bool-cases,
}
use infrastructure_in_a_box.Prelude.Text.{Text, text_discrete}
use infrastructure_in_a_box.Prelude.Table.{get}
use infrastructure_in_a_box.Acme.State.{Authorization, State, Server, is_waiting, is_processing}
use infrastructure_in_a_box.Acme.Store.{Disk, lost, renamed, synced, commit}
use infrastructure_in_a_box.Acme.Accounts.{Reply, touched, committed}
use infrastructure_in_a_box.Acme.Invariant.{IsSound}
use infrastructure_in_a_box.Acme.Changes.{put_authorization-IsSound}
use infrastructure_in_a_box.Acme.Pruning.{prune-IsSound}
use infrastructure_in_a_box.Acme.Challenges.{retried, retry_found, retry_interrupted, settled}

pub record IsIntact (s : Server) : Type 0 where
  pub sound : IsSound s.state
  pub stored : IsSound s.stored

pub touched-IsIntact : (now : ℕ) (s : Server) (id : Text) → IsIntact s → IsIntact (touched now s id)
touched-IsIntact now s id h = record { sound = h.sound; stored = h.stored }

-- A commit keeps the server intact, at whichever stage it fails.
pub commit-IsIntact :
    (now : ℕ) (disk : Disk) (s : Server) (next : State)
    → IsIntact s
    → IsSound next
    → IsIntact (commit now disk s next).0
unfolding commit
commit-IsIntact now lost s next h n = h
commit-IsIntact now renamed s next h n = record {
  sound = prune-IsSound now s.activity next n;
  stored = prune-IsSound now s.activity next n;
}
commit-IsIntact now synced s next h n = record {
  sound = prune-IsSound now s.activity next n;
  stored = prune-IsSound now s.activity next n;
}

pub committed-IsIntact :
    (r : Server × Bool) (reply : Reply) → IsIntact r.0 → IsIntact (committed r reply).0
committed-IsIntact (s, true) reply h = h
committed-IsIntact (s, false) reply h = h

-- The retry of a challenge, which changes memory only.
pub retry_interrupted-IsIntact :
    (id : Text) (s : Server) → IsIntact s → IsIntact (retry_interrupted id s)
unfolding retry_interrupted
retry_interrupted-IsIntact id s h = go (get text_discrete id s.state.authorizations) refl
  where
    go :
        (m : Option Authorization)
        → get text_discrete id s.state.authorizations ≡ m
        → IsIntact (retry_found id s m)
    go none e = h
    go (some a) e = elim (Bool-cases (is_waiting a.status && is_processing a.challenge_status)) [
      | inr idle ↦ rw idle h
      | inl busy ↦ rw busy (record {
        sound =
            put_authorization-IsSound id (retried a) h.sound e
              (record { id = refl; account_id = refl; order_id = refl }) refl
              (record {
                waits = λ p. cc;
                validated = λ p. ground arith;
                dated = (h.sound.consistent id a e).dated;
              });
        stored = h.stored;
      })
    ]

pub settled-IsIntact {ℓ} :
    {R : Type ℓ} (id : Text) (good bad : R) (r : Server × Bool)
    → IsIntact r.0
    → IsIntact (settled id good bad r).0
settled-IsIntact id good bad (s, true) h = h
settled-IsIntact id good bad (s, false) h = retry_interrupted-IsIntact id s h

-- ===== src/Acme/Settling.antt =====
-- A validation that has ended leaves its challenge settled, whatever became of the file.
use infrastructure_in_a_box.Prelude.{
  ℕ, ◌≡◌, refl, sym, ◌∙◌, ap, inl, inr, Bool, true, false, ◌&&◌, ◌||◌, not, Option, none, some,
  arith, Bool-cases, Option-cases,
}
use infrastructure_in_a_box.Prelude.Text.{Text, text_discrete}
use infrastructure_in_a_box.Prelude.Table.{Table, get, put_same}
use infrastructure_in_a_box.Acme.State.{
  Target, ChallengeStatus, Authorization, State, Server, no_authorization, or_zero,
  authorization_of, put_authorization, is_waiting, is_processing,
}
use infrastructure_in_a_box.Acme.Store.{Disk, lost, renamed, synced, prune, commit}
use infrastructure_in_a_box.Acme.Accounts.{Signed, Reply, active_account}
use infrastructure_in_a_box.Acme.Orders.{Site, is_some}
use infrastructure_in_a_box.Acme.Challenges.{
  retried, retry_found, retry_interrupted, settled, conclude, challenge_finish, is_rollover,
  is_passed, snapshot_of, touched_if, failed_proof, passed_proof, failed_authorization, proven,
}
use infrastructure_in_a_box.Acme.Pruning.{prune-authorization}
use infrastructure_in_a_box.Acme.Keeping.{IsIntact, commit-IsIntact}
use infrastructure_in_a_box.Acme.Handling.{
  waiting-IsSound, snapshot_of-IsSound, touched_if-IsIntact, touched_if-state,
}

-- The challenge of the authorization under a key is being validated.
abbrev pub is_running : State → Text → Bool
is_running st id = is_processing (authorization_of st id).challenge_status

is_running-some :
    (st : State) (id : Text) (a : Authorization)
    → get text_discrete id st.authorizations ≡ some a
    → is_running st id ≡ is_processing a.challenge_status
is_running-some st id a e = ap (λ m. is_processing (or_zero no_authorization m).challenge_status) e

is_running-none :
    (st : State) (id : Text)
    → get text_discrete id st.authorizations ≡ none
    → is_running st id ≡ false
is_running-none st id e = ap (λ m. is_processing (or_zero no_authorization m).challenge_status) e

is_running-put :
    (st : State) (id : Text) (b : Authorization)
    → is_running (put_authorization id b st) id ≡ is_processing b.challenge_status
is_running-put st id b =
    is_running-some (put_authorization id b st) id b (put_same text_discrete id b st.authorizations)

-- The retry stops a challenge that was running.
retry_interrupted-stops :
    (id : Text) (s : Server) → IsIntact s → is_running (retry_interrupted id s).state id ≡ false
unfolding retry_interrupted
retry_interrupted-stops id s h = go (get text_discrete id s.state.authorizations) refl
  where
    go :
        (m : Option Authorization)
        → get text_discrete id s.state.authorizations ≡ m
        → is_running (retry_found id s m).state id ≡ false
    go none e = is_running-none s.state id e
    go (some a) e = elim (Bool-cases (is_waiting a.status && is_processing a.challenge_status)) [
      | inl busy ↦ rw busy (is_running-put s.state id (retried a))
      | inr idle ↦
          rw idle
            (is_running-some s.state id a e ∙ ground (arith, (h.sound.consistent id a e).waits))
    ]

-- Pruning starts nothing.
prune-stopped :
    (now : ℕ) (activity : Table Text ℕ) (st : State) (id : Text)
    → is_running st id ≡ false
    → is_running (prune now activity st) id ≡ false
prune-stopped now activity st id e =
    elim (Option-cases (get text_discrete id (prune now activity st).authorizations)) [
      | inl gone ↦ is_running-none (prune now activity st) id gone
      | inr (a, found) ↦
          is_running-some (prune now activity st) id a found
          ∙ sym (is_running-some st id a (prune-authorization now activity st id a found))
          ∙ e
    ]

-- A commit of a snapshot in which the challenge does not run leaves it stopped, since a failure is
-- followed by the retry.
settled-stops :
    (now : ℕ) (disk : Disk) (s : Server) (next : State) (id : Text) (good bad : Reply)
    → IsIntact s
    → IsIntact (commit now disk s next).0
    → is_running next id ≡ false
    → is_running (settled id good bad (commit now disk s next)).0.state id ≡ false
unfolding commit
settled-stops now lost s next id good bad h after e = retry_interrupted-stops id s h
settled-stops now renamed s next id good bad h after e = retry_interrupted-stops id _ after
settled-stops now synced s next id good bad h after e = prune-stopped now s.activity next id e

failed_proof-stopped :
    (id : Text) (a : Authorization) (st : State) → is_running (failed_proof id a st) id ≡ false
unfolding failed_proof
failed_proof-stopped id a st = is_running-put st id (failed_authorization a)

snapshot_of-stopped :
    (is_usable : Bool) (now : ℕ) (outcome : Option Target) (id : Text) (a : Authorization)
    (st : State)
    → is_running (snapshot_of is_usable now outcome id a st) id ≡ false
unfolding passed_proof
snapshot_of-stopped is_usable now none id a st = failed_proof-stopped id a st
snapshot_of-stopped is_usable now (some target) id a st =
    elim (Bool-cases (is_passed is_usable now st a)) [
      | inl good ↦ rw good (is_running-put st id (proven now target a))
      | inr bad ↦ rw bad (failed_proof-stopped id a st)
    ]

conclude-stops :
    (site : Site) (now : ℕ) (disk : Disk) (s : Server) (signed : Signed) (account_id id : Text)
    (outcome : Option Target) (a : Authorization)
    → IsIntact s
    → get text_discrete id s.state.authorizations ≡ some a
    → is_waiting a.status ≡ true
    → is_running (conclude site now disk s signed account_id id outcome a).0.state id ≡ false
unfolding conclude
conclude-stops site now disk s signed account_id id outcome a h found waits =
    elim (Bool-cases (not is_usable && is_rollover now signed account_id a t.state)) [
      | inl rolled ↦ rw rolled (
          settled-stops now disk t _ id _ _ here
            (commit-IsIntact now disk t _ here
              (waiting-IsSound id a ChallengeStatus.pending t.state here.sound there waits))
            (is_running-put t.state id (record a { challenge_status = ChallengeStatus.pending })))
      | inr stays ↦ rw stays (
          settled-stops now disk t (snapshot_of is_usable now outcome id a t.state) id _ _ here
            (commit-IsIntact now disk t _ here
              (snapshot_of-IsSound is_usable now outcome id a t.state here.sound there))
            (snapshot_of-stopped is_usable now outcome id a t.state))
    ]
  where
    is_usable : Bool
    is_usable = is_some (active_account site.base_url s signed account_id)

    t : Server
    t = touched_if is_usable now s account_id

    here : IsIntact t
    here = touched_if-IsIntact is_usable now s account_id h

    there : get text_discrete id t.state.authorizations ≡ some a
    there =
        ap (λ st. get text_discrete id st.authorizations)
          (touched_if-state is_usable now s account_id)
        ∙ found

-- From an intact server, when a validation has ended, its challenge is not left running, whatever
-- the outcome, the account, the time and the disk.
pub challenge_finish-stops :
    (site : Site) (now : ℕ) (disk : Disk) (s : Server) (signed : Signed) (account_id id : Text)
    (outcome : Option Target)
    → IsIntact s
    → is_running (challenge_finish site now disk s signed account_id id outcome).0.state id ≡ false
unfolding challenge_finish
challenge_finish-stops site now disk s signed account_id id outcome h =
    elim (Option-cases (get text_discrete id s.state.authorizations)) [
      | inl gone ↦ rw (gone, challenge_finish) (is_running-none s.state id gone)
      | inr (a, found) ↦
          elim (Bool-cases (not (is_waiting a.status) || not (is_processing a.challenge_status))) [
            | inl over ↦
                rw (found, over, challenge_finish)
                  (is_running-some s.state id a found
                    ∙ ground (arith, (h.sound.consistent id a found).waits))
            | inr runs ↦
                rw (found, runs, challenge_finish)
                  (conclude-stops site now disk s signed account_id id outcome a h found
                    (ground arith))
          ]
    ]

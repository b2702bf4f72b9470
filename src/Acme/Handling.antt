-- ===== src/Acme/Handling.antt =====
-- The handlers of the ACME server, one by one, keep it intact.
use infrastructure_in_a_box.Prelude.{
  ℕ, ◌≡◌, refl, ◌∙◌, ap, inl, inr, Bool, true, false, ◌&&◌, ◌||◌, not, Option, none, some, arith,
  Bool-cases, Option-cases, &&-true,
}
use infrastructure_in_a_box.Prelude.Text.{Text, text_discrete}
use infrastructure_in_a_box.Prelude.Table.{get}
use infrastructure_in_a_box.Acme.State.{
  Target, Order, ChallengeStatus, Authorization, State, Server, put_authorization, is_waiting,
  is_processing,
}
use infrastructure_in_a_box.Acme.Store.{Disk}
use infrastructure_in_a_box.Acme.Accounts.{Signed, touched, active_account}
use infrastructure_in_a_box.Acme.Orders.{
  Site, is_some, own_order, own_authorization, AuthorizationInput, empty, deactivate, unsupported,
  answer_authorization, get_authorization,
}
use infrastructure_in_a_box.Acme.Challenges.{
  ChallengeInput, is_unsupported, is_polled, is_startable, start, challenge_begin, conclude,
  challenge_finish, is_rollover, is_passed, snapshot_of, touched_if,
}
use infrastructure_in_a_box.Acme.Invariant.{IsSound}
use infrastructure_in_a_box.Acme.Changes.{put_authorization-IsSound}
use infrastructure_in_a_box.Acme.Effects.{
  deactivate_authorization-IsSound, failed_proof-IsSound, passed_proof-IsSound,
}
use infrastructure_in_a_box.Acme.Keeping.{
  IsIntact, touched-IsIntact, commit-IsIntact, committed-IsIntact, settled-IsIntact,
}

own_authorization-some :
    (id : Text) (m : Option Authorization) (a : Authorization)
    → own_authorization id m ≡ some a
    → m ≡ some a
own_authorization-some id none a e = cc
own_authorization-some id (some b) a e = ground arith

pub own_order-some :
    (id : Text) (m : Option Order) (o : Order) → own_order id m ≡ some o → m ≡ some o
own_order-some id none o e = cc
own_order-some id (some p) o e = ground arith

-- A challenge may turn back or start while its authorization waits.
pub waiting-IsSound :
    (id : Text) (a : Authorization) (status : ChallengeStatus) (s : State)
    → IsSound s
    → get text_discrete id s.authorizations ≡ some a
    → is_waiting a.status ≡ true
    → IsSound (put_authorization id (record a { challenge_status = status }) s)
waiting-IsSound id a status s h found waits =
    put_authorization-IsSound id (record a { challenge_status = status }) h found
      (record { id = refl; account_id = refl; order_id = refl }) refl
      (record { waits = λ e. waits; validated = λ e. ground arith; dated = λ e. ground arith })

start-IsIntact :
    (now : ℕ) (disk : Disk) (s : Server) (id : Text) (a : Authorization) (input : ChallengeInput)
    (has_slot : Bool)
    → IsIntact s
    → get text_discrete id s.state.authorizations ≡ some a
    → IsIntact (start now disk s id a input has_slot).0
unfolding start
start-IsIntact now disk s id a input has_slot h found = elim (Bool-cases (is_polled input a)) [
  | inl polled ↦ rw polled h
  | inr asked ↦ elim (Bool-cases (is_startable now s.state a)) [
    | inr late ↦ rw (asked, late) h
    | inl good ↦ elim (Bool-cases has_slot) [
      | inr full ↦ rw (asked, good, full) h
      | inl slot ↦
          rw (asked, good, slot)
            (settled-IsIntact id _ _ _ (
              commit-IsIntact now disk s _ h (
                waiting-IsSound id a ChallengeStatus.processing s.state h.sound found
                  (&&-true _ _ (&&-true _ _ good).0).0)))
    ]
  ]
]

pub challenge_begin-IsIntact :
    (site : Site) (now : ℕ) (disk : Disk) (s : Server) (signed : Signed) (account_id id : Text)
    (input : ChallengeInput) (has_slot : Bool)
    → IsIntact s
    → IsIntact (challenge_begin site now disk s signed account_id id input has_slot).0
unfolding challenge_begin
challenge_begin-IsIntact site now disk s signed account_id id input has_slot h =
    elim (Bool-cases (is_unsupported input)) [
      | inl bad ↦ rw bad h
      | inr good ↦ elim (Option-cases (active_account site.base_url s signed account_id)) [
        | inl out ↦ rw (good, out) h
        | inr (account, active) ↦
            elim (Option-cases
              (own_authorization account_id (get text_discrete id s.state.authorizations))) [
                | inl missing ↦ rw (good, active, missing) (touched-IsIntact now s account_id h)
                | inr (a, own) ↦
                    rw (good, active, own)
                      (start-IsIntact now disk (touched now s account_id) id a input has_slot
                        (touched-IsIntact now s account_id h)
                        (own_authorization-some account_id _ a own))
              ]
      ]
    ]

pub touched_if-IsIntact :
    (b : Bool) (now : ℕ) (s : Server) (id : Text) → IsIntact s → IsIntact (touched_if b now s id)
touched_if-IsIntact true now s id h = touched-IsIntact now s id h
touched_if-IsIntact false now s id h = h

pub touched_if-state :
    (b : Bool) (now : ℕ) (s : Server) (id : Text) → (touched_if b now s id).state ≡ s.state
touched_if-state true now s id = refl
touched_if-state false now s id = refl

-- The snapshot behind a validation, whichever way it went.
pub snapshot_of-IsSound :
    (is_usable : Bool) (now : ℕ) (outcome : Option Target) (id : Text) (a : Authorization)
    (s : State)
    → IsSound s
    → get text_discrete id s.authorizations ≡ some a
    → IsSound (snapshot_of is_usable now outcome id a s)
snapshot_of-IsSound is_usable now none id a s h found = failed_proof-IsSound id a s h found
snapshot_of-IsSound is_usable now (some target) id a s h found =
    elim (Bool-cases (is_passed is_usable now s a)) [
      | inr out ↦ rw out (failed_proof-IsSound id a s h found)
      | inl good ↦ rw good (passed_proof-IsSound now target id a s h found (&&-true _ _ good).1)
    ]

conclude-IsIntact :
    (site : Site) (now : ℕ) (disk : Disk) (s : Server) (signed : Signed) (account_id id : Text)
    (outcome : Option Target) (a : Authorization)
    → IsIntact s
    → get text_discrete id s.state.authorizations ≡ some a
    → is_waiting a.status ≡ true
    → IsIntact (conclude site now disk s signed account_id id outcome a).0
unfolding conclude
conclude-IsIntact site now disk s signed account_id id outcome a h found waits =
    elim (Bool-cases (not is_usable && is_rollover now signed account_id a t.state)) [
      | inl rolled ↦ rw rolled (
          settled-IsIntact id _ _ _ (
            commit-IsIntact now disk t _ here
              (waiting-IsSound id a ChallengeStatus.pending t.state here.sound there waits)))
      | inr stays ↦ rw stays (
          settled-IsIntact id _ _ _ (
            commit-IsIntact now disk t _ here
              (snapshot_of-IsSound is_usable now outcome id a t.state here.sound there)))
    ]
  where
    is_usable : Bool
    is_usable = is_some (active_account site.base_url s signed account_id)

    t : Server
    t = touched_if is_usable now s account_id

    here : IsIntact t
    here = touched_if-IsIntact is_usable now s account_id h

    there : get text_discrete id t.state.authorizations ≡ some a
    there =
        ap (λ st. get text_discrete id st.authorizations)
          (touched_if-state is_usable now s account_id)
        ∙ found

pub challenge_finish-IsIntact :
    (site : Site) (now : ℕ) (disk : Disk) (s : Server) (signed : Signed) (account_id id : Text)
    (outcome : Option Target)
    → IsIntact s
    → IsIntact (challenge_finish site now disk s signed account_id id outcome).0
unfolding challenge_finish
challenge_finish-IsIntact site now disk s signed account_id id outcome h =
    elim (Option-cases (get text_discrete id s.state.authorizations)) [
      | inl gone ↦ rw (gone, challenge_finish) h
      | inr (a, found) ↦
          elim (Bool-cases (not (is_waiting a.status) || not (is_processing a.challenge_status))) [
            | inl over ↦ rw (found, over, challenge_finish) h
            | inr runs ↦
                rw (found, runs, challenge_finish)
                  (conclude-IsIntact site now disk s signed account_id id outcome a h found
                    (ground arith))
          ]
    ]

answer_authorization-IsIntact :
    (now : ℕ) (disk : Disk) (s : Server) (id : Text) (a : Authorization)
    (input : AuthorizationInput)
    → IsIntact s
    → get text_discrete id s.state.authorizations ≡ some a
    → IsIntact (answer_authorization now disk s id a input).0
unfolding answer_authorization
answer_authorization-IsIntact now disk s id a empty h found = h
answer_authorization-IsIntact now disk s id a unsupported h found = h
answer_authorization-IsIntact now disk s id a deactivate h found =
    committed-IsIntact _ _
      (commit-IsIntact now disk s _ h (deactivate_authorization-IsSound id a s.state h.sound found))

pub get_authorization-IsIntact :
    (site : Site) (now : ℕ) (disk : Disk) (s : Server) (signed : Signed) (account_id id : Text)
    (input : AuthorizationInput)
    → IsIntact s
    → IsIntact (get_authorization site now disk s signed account_id id input).0
unfolding get_authorization
get_authorization-IsIntact site now disk s signed account_id id input h =
    elim (Option-cases (active_account site.base_url s signed account_id)) [
      | inl out ↦ rw (out, get_authorization) h
      | inr (account, active) ↦
          elim (Option-cases
            (own_authorization account_id (get text_discrete id s.state.authorizations))) [
              | inl missing ↦ rw (active, missing, get_authorization) here
              | inr (a, own) ↦
                  rw (active, own, get_authorization)
                    (answer_authorization-IsIntact now disk (touched now s account_id) id a input
                      here (own_authorization-some account_id _ a own))
            ]
    ]
  where
    here : IsIntact (touched now s account_id)
    here = touched-IsIntact now s account_id h

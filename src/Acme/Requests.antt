-- ===== src/Acme/Requests.antt =====
-- The handlers of accounts keep the ACME server intact.
use infrastructure_in_a_box.Prelude.{
  ℕ, refl, inl, inr, ◌||◌, List, Option, none, some, Bool-cases, Option-cases, length, leb, ◌==◌,
}
use infrastructure_in_a_box.Prelude.Text.{Text, text_eq}
use infrastructure_in_a_box.Acme.State.{Server}
use infrastructure_in_a_box.Acme.Store.{Disk, prune}
use infrastructure_in_a_box.Acme.Accounts.{
  Signed, Reply, AccountInput, touched, by_thumbprint, max_accounts, add_account, limited_account,
  unknown_account, new_account, active_account, changed_account, is_sent, account, key_change,
}
use infrastructure_in_a_box.Acme.Changes.{same_tables-IsSound}
use infrastructure_in_a_box.Acme.Pruning.{prune-IsSound}
use infrastructure_in_a_box.Acme.Effects.{update_account-IsSound}
use infrastructure_in_a_box.Acme.Keeping.{
  IsIntact, touched-IsIntact, commit-IsIntact, committed-IsIntact,
}

add_account-IsIntact :
    (now : ℕ) (disk : Disk) (s : Server) (signed : Signed) (source : Text) (contact : List Text)
    (drawn : Option Text)
    → IsIntact s
    → IsIntact (add_account now disk s signed source contact drawn).0
unfolding add_account
add_account-IsIntact now disk s signed source contact drawn h =
    elim (Bool-cases (leb max_accounts (length (prune now s.activity s.state).accounts))) [
      | inl full ↦ rw (full, add_account) h
      | inr room ↦ elim (Option-cases drawn) [
        | inl out ↦ rw (room, out, add_account) h
        | inr (id, e) ↦
            rw (room, e, add_account)
              (committed-IsIntact _ _ (
                commit-IsIntact now disk s _ h
                  (same_tables-IsSound _ refl refl (prune-IsSound now s.activity s.state h.sound))))
      ]
    ]

limited_account-IsIntact :
    (now : ℕ) (disk : Disk) (s : Server) (signed : Signed) (source : Text) (contact : List Text)
    (drawn : Option Text) (refused : Option Reply)
    → IsIntact s
    → IsIntact (limited_account now disk s signed source contact drawn refused).0
limited_account-IsIntact now disk s signed source contact drawn (some reply) h = h
limited_account-IsIntact now disk s signed source contact drawn none h =
    add_account-IsIntact now disk s signed source contact drawn h

unknown_account-IsIntact :
    (now : ℕ) (disk : Disk) (s : Server) (signed : Signed) (source : Text) (input : AccountInput)
    (drawn : Option Text)
    → IsIntact s
    → IsIntact (unknown_account now disk s signed source input drawn).0
unknown_account-IsIntact now disk s signed source input drawn h =
    elim (Bool-cases input.only_existing) [
      | inl only ↦ rw (only, unknown_account) h
      | inr any ↦ elim (Option-cases input.bad_contact) [
        | inr (p, bad) ↦ rw (any, bad, unknown_account) h
        | inl good ↦
            rw (any, good, unknown_account)
              (limited_account-IsIntact now disk s signed source _ drawn _ h)
      ]
    ]

pub new_account-IsIntact :
    (now : ℕ) (disk : Disk) (s : Server) (signed : Signed) (source : Text) (input : AccountInput)
    (drawn : Option Text)
    → IsIntact s
    → IsIntact (new_account now disk s signed source input drawn).0
unfolding new_account
new_account-IsIntact now disk s signed source input drawn h =
    elim (Bool-cases (length signed.key_id == 0)) [
      | inr named ↦ rw (named, new_account) h
      | inl own ↦ elim (Option-cases (by_thumbprint signed.thumbprint s.state)) [
        | inr (a, e) ↦ rw (own, e, new_account) (touched-IsIntact now s a.id h)
        | inl e ↦
            rw (own, e, new_account)
              (unknown_account-IsIntact now disk s signed source input drawn h)
      ]
    ]

pub account-IsIntact :
    (base : Text) (now : ℕ) (disk : Disk) (s : Server) (signed : Signed) (account_id id : Text)
    (input : AccountInput)
    → IsIntact s
    → IsIntact (account base now disk s signed account_id id input).0
unfolding account
account-IsIntact base now disk s signed account_id id input h =
    elim (Bool-cases (text_eq id account_id)) [
      | inr other ↦ rw (other, account) h
      | inl own ↦ elim (Option-cases input.bad_contact) [
        | inr (p, bad) ↦ rw (own, bad, account) h
        | inl good ↦ elim (Option-cases (active_account base s signed account_id)) [
          | inl out ↦ rw (own, good, out, account) h
          | inr (a, active) ↦ elim (Bool-cases (is_sent input.contact || is_sent input.status)) [
            | inr still ↦ rw (own, good, active, still, account) here
            | inl sent ↦
                rw (own, good, active, sent, account)
                  (committed-IsIntact _ _ (
                    commit-IsIntact now disk (touched now s account_id) _ here
                      (update_account-IsSound id (changed_account input a) s.state h.sound)))
          ]
        ]
      ]
    ]
  where
    here : IsIntact (touched now s account_id)
    here = touched-IsIntact now s account_id h

pub key_change-IsIntact :
    (base : Text) (now : ℕ) (disk : Disk) (s : Server) (signed : Signed) (account_id : Text)
    (inner : Signed)
    → IsIntact s
    → IsIntact (key_change base now disk s signed account_id inner).0
unfolding key_change
key_change-IsIntact base now disk s signed account_id inner h =
    elim (Bool-cases (text_eq inner.thumbprint signed.thumbprint)) [
      | inl same ↦ rw (same, key_change) h
      | inr other ↦ elim (Option-cases (active_account base s signed account_id)) [
        | inl out ↦ rw (other, out, key_change) h
        | inr (a, active) ↦ elim (Option-cases (by_thumbprint inner.thumbprint s.state)) [
          | inr (b, taken) ↦ rw (other, active, taken, key_change) here
          | inl free ↦
              rw (other, active, free, key_change)
                (committed-IsIntact _ _ (
                  commit-IsIntact now disk (touched now s account_id) _ here
                    (same_tables-IsSound _ refl refl h.sound)))
        ]
      ]
    ]
  where
    here : IsIntact (touched now s account_id)
    here = touched-IsIntact now s account_id h

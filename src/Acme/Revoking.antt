-- ===== src/Acme/Revoking.antt =====
-- Revocation and the revocation list leave orders and authorizations alone.
use infrastructure_in_a_box.Prelude.{
  ℕ, ◌≡◌, refl, inl, inr, Bool, true, false, ◌||◌, not, ◌+◌, ◌-◌, ◌^◌, Option, none, some, arith,
  Bool-cases, Option-cases, length, ltb, ◌==◌,
}
use infrastructure_in_a_box.Prelude.Text.{Text}
use infrastructure_in_a_box.Acme.State.{Certificate, State, Server}
use infrastructure_in_a_box.Acme.Store.{Disk}
use infrastructure_in_a_box.Acme.Accounts.{Signed, Reply, active_account}
use infrastructure_in_a_box.Acme.Orders.{Site, is_some}
use infrastructure_in_a_box.Acme.Issuance.{Authority, Leaf}
use infrastructure_in_a_box.Acme.Revocation.{
  RevocationList, Signer, RevocationInput, Issued, issued, unreadable, absent, is_valid_reason,
  find_issued, revoker, can_revoke, entries_of, sort_entries, is_good_list, with_list, refresh_crl,
  with_revoked, commit_list, revoke_issued, revoke_if, reason_of, revoke_certificate, minute,
  serve_crl,
}
use infrastructure_in_a_box.Acme.Invariant.{IsSound}
use infrastructure_in_a_box.Acme.Changes.{same_tables-IsSound}
use infrastructure_in_a_box.Acme.Keeping.{
  IsIntact, touched-IsIntact, commit-IsIntact, committed-IsIntact,
}

with_list-IsSound :
    (now number : ℕ) (der : Text) (list : Option RevocationList) (s next : State)
    → IsSound s
    → with_list now number der list s ≡ some next
    → IsSound next
with_list-IsSound now number der none s next h e = cc
with_list-IsSound now number der (some list) s next h e =
    elim (Bool-cases (is_good_list now number (some list))) [
      | inl good ↦ same_tables-IsSound next (ground arith) (ground arith) h
      | inr bad ↦ absurd (ground arith)
    ]

refresh_crl-IsSound :
    (signer : Signer) (now : ℕ) (s next : State)
    → IsSound s
    → refresh_crl signer now s ≡ some next
    → IsSound next
unfolding refresh_crl
refresh_crl-IsSound signer now s next h e = elim (Bool-cases (s.crl_number == 2 ^ 63 - 1)) [
  | inl full ↦ absurd (ground arith)
  | inr room ↦ elim (Option-cases (entries_of signer now s.certificates)) [
    | inl bad ↦ absurd (ground arith)
    | inr (entries, listed) ↦
        elim (Option-cases (signer.create (sort_entries entries) (s.crl_number + 1))) [
          | inl refused ↦ absurd (ground arith)
          | inr (der, made) ↦
              with_list-IsSound now (s.crl_number + 1) der (signer.parse der) s next h
                (ground arith)
        ]
  ]
]

commit_list-IsIntact :
    (now : ℕ) (disk : Disk) (s : Server) (next : Option State) (reply : Reply)
    → IsIntact s
    → ((n : State) → next ≡ some n → IsSound n)
    → IsIntact (commit_list now disk s next reply).0
commit_list-IsIntact now disk s none reply h good = h
commit_list-IsIntact now disk s (some next) reply h good =
    committed-IsIntact _ _ (commit-IsIntact now disk s next h (good next refl))

revoke_issued-IsIntact :
    (signer : Signer) (now : ℕ) (disk : Disk) (s : Server) (c : Certificate) (reason : ℕ)
    → IsIntact s
    → IsIntact (revoke_issued signer now disk s c reason).0
unfolding revoke_issued
revoke_issued-IsIntact signer now disk s c reason h = elim (Bool-cases (is_some c.revoked_at)) [
  | inl again ↦ rw (again, revoke_issued) h
  | inr first ↦
      rw (first, revoke_issued)
        (commit_list-IsIntact now disk s _ _ h (λ next e.
          refresh_crl-IsSound signer now (with_revoked now reason c s.state) next
            (same_tables-IsSound _ refl refl h.sound) e))
]

can_revoke-IsIntact :
    (site : Site) (now : ℕ) (s : Server) (signed : Signed) (c : Certificate) (leaf : Leaf)
    → IsIntact s
    → IsIntact (can_revoke site now s signed c leaf).0
unfolding can_revoke
can_revoke-IsIntact site now s signed c leaf h = elim (Bool-cases (length signed.key_id == 0)) [
  | inl embedded ↦ rw (embedded, can_revoke) h
  | inr named ↦ elim (Option-cases (active_account site.base_url s signed (revoker site signed))) [
    | inl out ↦ rw (named, out, can_revoke) h
    | inr (a, active) ↦
        rw (named, active, can_revoke) (touched-IsIntact now s (revoker site signed) h)
  ]
]

revoke_if-IsIntact :
    (signer : Signer) (now : ℕ) (disk : Disk) (c : Certificate) (reason : ℕ) (r : Server × Bool)
    → IsIntact r.0
    → IsIntact (revoke_if signer now disk c reason r).0
revoke_if-IsIntact signer now disk c reason (s, true) h =
    revoke_issued-IsIntact signer now disk s c reason h
revoke_if-IsIntact signer now disk c reason (s, false) h = h

pub revoke_certificate-IsIntact :
    (site : Site) (ca : Authority) (signer : Signer) (now : ℕ) (disk : Disk) (s : Server)
    (signed : Signed) (input : RevocationInput)
    → IsIntact s
    → IsIntact (revoke_certificate site ca signer now disk s signed input).0
unfolding revoke_certificate
revoke_certificate-IsIntact site ca signer now disk s signed input h =
    elim (Bool-cases (is_valid_reason input.reason)) [
      | inr bad ↦ rw (bad, revoke_certificate) h
      | inl good ↦ elim (Option-cases input.leaf) [
        | inl refused ↦ rw (good, refused, revoke_certificate) h
        | inr (leaf, read) ↦ go leaf good read (find_issued ca leaf s.state.certificates) refl
      ]
    ]
  where
    go :
        (leaf : Leaf)
        → is_valid_reason input.reason ≡ true
        → input.leaf ≡ some leaf
        → (f : Issued) → find_issued ca leaf s.state.certificates ≡ f
        → IsIntact (revoke_certificate site ca signer now disk s signed input).0
    go leaf good read unreadable e = rw (good, read, e, revoke_certificate) h
    go leaf good read absent e = rw (good, read, e, revoke_certificate) h
    go leaf good read (issued c) e = elim (Bool-cases (length c.id == 0)) [
      | inl unset ↦ rw (good, read, e, unset, revoke_certificate) h
      | inr set ↦
          rw (good, read, e, set, revoke_certificate)
            (revoke_if-IsIntact signer now disk c (reason_of input.reason) _
              (can_revoke-IsIntact site now s signed c leaf h))
    ]

pub serve_crl-IsIntact :
    (signer : Signer) (now : ℕ) (disk : Disk) (s : Server)
    → IsIntact s
    → IsIntact (serve_crl signer now disk s).0
unfolding serve_crl
serve_crl-IsIntact signer now disk s h =
    elim (Bool-cases
      (length s.state.crl == 0 || not (ltb (now + minute) s.state.crl_next_update))) [
        | inr fresh ↦ rw (fresh, serve_crl) h
        | inl stale ↦ elim (Option-cases (refresh_crl signer now s.state)) [
          | inl bad ↦ rw (stale, bad, serve_crl) h
          | inr (next, made) ↦
              rw (stale, made, serve_crl)
                (committed-IsIntact _ _ (
                  commit-IsIntact now disk s next h
                    (refresh_crl-IsSound signer now s.state next h.sound made)))
        ]
      ]

-- ===== src/Lease/Steps.antt =====
-- Commit, Release and Decline keep the manager valid, and so does every sequence of calls.
use infrastructure_in_a_box.Prelude.{
  ℕ, ◌≡◌, refl, sym, ◌∙◌, ◌≢◌, inl, inr, Bool, true, ◌&&◌, ◌||◌, not, List, [], Option, none, some,
  if◌then◌else◌, ◌==◌, length, arith, Bool-cases, Option-cases,
}
use infrastructure_in_a_box.Prelude.Text.{Text, Unicode, text_discrete, text_eq}
use infrastructure_in_a_box.Prelude.Table.{Table, get, find, find-none, erase}
use infrastructure_in_a_box.Lease.Address.{Addr, addr_discrete, occupies}
use infrastructure_in_a_box.Lease.State.{
  Lease, State, in_pool, occupied, valid_client_id, owns, remove, has_ip,
}
use infrastructure_in_a_box.Lease.Persistence.{Disk, persist, is_reserved}
use infrastructure_in_a_box.Lease.Manager.{Manager, lease_of, offer_of}
use infrastructure_in_a_box.Lease.Commits.{
  publish, granted_name, wanted_name, committed, with_lease, commit_live, release_live,
  decline_live,
}
use infrastructure_in_a_box.Lease.Invariant.{
  IsSound, Holds, IsName, Within-IsSound, remove-Within, Within-Holds, get-erase-some,
}
use infrastructure_in_a_box.Lease.Grants.{
  IsFreeName, occupied-IsClear, with_lease-IsSound, quarantine-IsSound,
}
use infrastructure_in_a_box.Lease.Valid.{IsValid, normalize_hostname-IsName, held-IsName}

-- Saving keeps the manager valid if the next state is sound: a failure leaves the old state.
pub publish-IsValid :
    {A : Type 0} (disk : Disk) (m : Manager) (next : State) (a : A)
    → IsValid m
    → IsSound m.cfg m.reserved next
    → IsValid (publish disk m next a).0
unfolding publish
publish-IsValid disk m next a v h = elim (Option-cases (persist m.cfg disk m.file next).1) [
  | inl saved ↦ rw (saved, publish) (record { config = v.config; sound = h })
  | inr (stage, failed) ↦ rw (failed, publish) (record { config = v.config; sound = v.sound })
]

no_name-IsFreeName : (reserved : List Text) (s : State) (c : Text) → IsFreeName reserved s c []
no_name-IsFreeName reserved s c = record {
  alone = λ d l h e n. absurd (n refl);
  open_name = λ n. absurd (n refl);
}

-- The name that a commit grants is free for the client.
pub granted_name-IsFreeName :
    (reserved : List Text) (s : State) (c name : Text)
    → IsFreeName reserved s c (granted_name reserved s c name)
unfolding granted_name
granted_name-IsFreeName reserved s c name =
    elim (Bool-cases (is_reserved reserved name || length name == 0)) [
      | inl refused ↦ rw refused (no_name-IsFreeName reserved s c)
      | inr allowed ↦ elim (Option-cases (find taken s.leases)) [
        | inr (l, e) ↦ rw (allowed, e) (no_name-IsFreeName reserved s c)
        | inl e ↦
            rw (allowed, e)
              (record {
                alone = λ d l h q n. ground (arith, find-none text_discrete taken s.leases d l e h);
                open_name = λ n. ground arith;
              })
      ]
    ]
  where
    taken : Text → Lease → Bool
    taken other l = not (text_eq other c) && text_eq l.hostname name

granted_name-IsName :
    (reserved : List Text) (s : State) (c name domain : Text)
    → IsName domain name
    → IsName domain (granted_name reserved s c name)
unfolding granted_name
granted_name-IsName reserved s c name domain h = ground arith

wanted_name-IsName :
    (u : Unicode) (m : Manager) (v : IsValid m) (client : Text) (ip : Addr) (h f : Text)
    → IsName m.cfg.domain
        (wanted_name u m.cfg.domain ip h f (lease_of m.state client) (offer_of m.state client))
unfolding wanted_name
wanted_name-IsName u m v client ip h f =
    go (lease_of m.state client) (offer_of m.state client) refl refl
  where
    go :
        (current offered : Option Lease)
        → lease_of m.state client ≡ current
        → offer_of m.state client ≡ offered
        → IsName m.cfg.domain (wanted_name u m.cfg.domain ip h f current offered)
    go none none a b = ground (
      arith,
      normalize_hostname-IsName u m.cfg h v.config,
      normalize_hostname-IsName u m.cfg f v.config,
    )
    go (some l) none a b = ground (
      arith,
      held-IsName u m v client l (inl a),
      normalize_hostname-IsName u m.cfg h v.config,
      normalize_hostname-IsName u m.cfg f v.config,
    )
    go none (some o) a b = ground (
      arith,
      held-IsName u m v client o (inr b),
      normalize_hostname-IsName u m.cfg h v.config,
      normalize_hostname-IsName u m.cfg f v.config,
    )
    go (some l) (some o) a b = ground (
      arith,
      held-IsName u m v client l (inl a),
      held-IsName u m v client o (inr b),
      normalize_hostname-IsName u m.cfg h v.config,
      normalize_hostname-IsName u m.cfg f v.config,
    )

pub commit_live-IsValid :
    (u : Unicode) (now : ℕ) (disk : Disk) (m : Manager) (client : Text) (ip : Addr)
    (hostname fallback : Text)
    → IsValid m
    → IsValid (commit_live u now disk m client ip hostname fallback).0
unfolding commit_live
commit_live-IsValid u now disk m client ip hostname fallback v =
    elim (Bool-cases (
      not (valid_client_id client)
      || not (in_pool m.cfg ip)
      || occupies (occupied m.state client) ip)) [
        | inl refused ↦ rw refused v
        | inr allowed ↦ rw allowed (
            publish-IsValid disk m (with_lease m.state client l) l v (
              unfold committed in
              (with_lease-IsSound m.state client l v.sound
                (record {
                  client = refl;
                  inside = ground arith;
                  name =
                      granted_name-IsName m.reserved m.state client _ m.cfg.domain
                        (wanted_name-IsName u m v client ip hostname fallback);
                  clear = occupied-IsClear m.state client ip (ground arith);
                })
                (granted_name-IsFreeName m.reserved m.state client _))))
      ]
  where
    l : Lease
    l = committed u now m client ip hostname fallback

pub release_live-IsValid :
    (disk : Disk) (m : Manager) (client : Text) (ip : Addr)
    → IsValid m
    → IsValid (release_live disk m client ip).0
unfolding release_live
release_live-IsValid disk m client ip v = elim (Bool-cases (owns m.state client ip)) [
  | inr other ↦ rw other v
  | inl own ↦ rw own (
      publish-IsValid disk m (remove client ip m.state) tt v
        (Within-IsSound (remove-Within client ip v.sound) v.sound))
]

owns-Holds :
    (s : State) (client : Text) (ip : Addr)
    → owns s client ip ≡ true
    → (l : Lease) × Holds s client l × (l.ip ≡ ip)
unfolding owns
owns-Holds s client ip h = go (lease_of s client) (offer_of s client) refl refl h
  where
    go :
        (current offered : Option Lease)
        → lease_of s client ≡ current
        → offer_of s client ≡ offered
        → (has_ip ip current || has_ip ip offered) ≡ true
        → (l : Lease) × Holds s client l × (l.ip ≡ ip)
    go none none a b h = cc
    go none (some o) a b h = (o, inr b, ground arith)
    go (some l) offered a b h = elim (addr_discrete l.ip ip) [
      | yes e ↦ (l, inl a, e)
      | no n ↦ go_offer offered b (ground arith)
    ]
      where
        go_offer :
            (o : Option Lease)
            → offer_of s client ≡ o
            → has_ip ip o ≡ true
            → (l : Lease) × Holds s client l × (l.ip ≡ ip)
        go_offer none b h = cc
        go_offer (some o) b h = (o, inr b, ground arith)

not_left_map :
    (c d : Text) (ip : Addr) (m : Table Text Lease) (l : Lease)
    → d ≡ c
    → get text_discrete d (if has_ip ip (get text_discrete c m) then erase text_discrete c m else m)
      ≡ some l
    → l.ip ≢ ip
not_left_map c d ip m l q h e = elim (Bool-cases (has_ip ip (get text_discrete c m))) [
  | inl hit ↦ (get-erase-some c d m l (rw hit at h)).0 (sym q)
  | inr miss ↦ ground arith
]

not_left :
    (s : State) (c d : Text) (ip : Addr) (l : Lease) → d ≡ c → Holds (remove c ip s) d l → l.ip ≢ ip
unfolding remove
not_left s c d ip l q (inl h) = not_left_map c d ip s.leases l q h
not_left s c d ip l q (inr h) = not_left_map c d ip s.offers l q h

-- Once a client's holdings at an address are removed, nobody holds it.
remove-nobody :
    (m : Manager) (client : Text) (ip : Addr)
    → IsValid m
    → owns m.state client ip ≡ true
    → (d : Text) (l : Lease) → Holds (remove client ip m.state) d l
    → l.ip ≢ ip
remove-nobody m client ip v own d l h e =
    let (l0, h0, e0) = owns-Holds m.state client ip own in
    let same =
      v.sound.exclusive d client l l0 (Within-Holds (remove-Within client ip v.sound) d l h) h0
        (e ∙ sym e0) in
    not_left m.state client d ip l same h e

pub decline_live-IsValid :
    (now : ℕ) (disk : Disk) (m : Manager) (client : Text) (ip : Addr)
    → IsValid m
    → IsValid (decline_live now disk m client ip).0
unfolding decline_live
decline_live-IsValid now disk m client ip v = elim (Bool-cases (owns m.state client ip)) [
  | inr other ↦ rw other v
  | inl own ↦ rw own (
      publish-IsValid disk m _ tt v (
        quarantine-IsSound (remove client ip m.state) _ ip
          (Within-IsSound (remove-Within client ip v.sound) v.sound)
          (remove-nobody m client ip v own)))
]

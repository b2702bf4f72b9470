-- ===== src/Dhcp/Handling.antt =====
-- What a DHCP request does to the lease manager, and which answers it gets.
use infrastructure_in_a_box.Prelude.{
  ℕ, ◌≡◌, refl, ◌≢◌, Bool, true, false, ◌&&◌, ◌||◌, not, none, some, if◌then◌else◌, ◌==◌, length,
  arith,
}
use infrastructure_in_a_box.Prelude.Results.{Result, ok, err}
use infrastructure_in_a_box.Prelude.Text.{Text, Unicode}
use infrastructure_in_a_box.Lease.Address.{Addr, addr_eq, is_valid}
use infrastructure_in_a_box.Lease.State.{Lease}
use infrastructure_in_a_box.Lease.Persistence.{Disk}
use infrastructure_in_a_box.Lease.Manager.{
  Manager, Error, pool_exhausted, unavailable, persist_failed, expired,
}
use infrastructure_in_a_box.Lease.Valid.{IsValid}
use infrastructure_in_a_box.Lease.Offers.{offer_with_fallback}
use infrastructure_in_a_box.Lease.Commits.{commit_with_fallback, release, decline}
use infrastructure_in_a_box.Lease.Effects.{IsCommitted, commit_granted}
use infrastructure_in_a_box.Dhcp.Request.{Request, ipv4, client_identifier}
use infrastructure_in_a_box.Dhcp.Hostname.{client_hostname, fallback_hostname}
use infrastructure_in_a_box.Dhcp.Reply.{MessageType, discover, request, ack, inform, Config}
use infrastructure_in_a_box.Dhcp.Handler.{
  Library, Decision, silent, answers, Addresses, no_reply, after_offer, after_commit, after_removal,
  dispatch, decide, handle, addresses_of, is_well_formed, reply,
}

pub after_offer-state : (p : Manager × Result Error Lease) → (after_offer p).0 ≡ p.0
after_offer-state (m, ok l) = refl
after_offer-state (m, err pool_exhausted) = refl
after_offer-state (m, err unavailable) = refl
after_offer-state (m, err (persist_failed stage)) = refl

pub after_commit-state : (p : Manager × Result Error Lease) → (after_commit p).0 ≡ p.0
after_commit-state (m, ok l) = refl
after_commit-state (m, err pool_exhausted) = refl
after_commit-state (m, err unavailable) = refl
after_commit-state (m, err (persist_failed stage)) = refl

pub after_removal-state : (p : Manager × Result Error (Unit {0})) → (after_removal p).0 ≡ p.0
after_removal-state (m, ok x) = refl
after_removal-state (m, err pool_exhausted) = refl
after_removal-state (m, err unavailable) = refl
after_removal-state (m, err (persist_failed stage)) = refl

addr_eq-ne : (a b : Addr) → a ≢ b → addr_eq a b ≡ false
addr_eq-ne a b n = ground arith

module _ (u : Unicode) (cfg : Config) (now : ℕ) (disk : Disk) (m : Manager)
    (client hostname fallback : Text) (v : IsValid m) where
  after_commit-ack :
      (p : Manager × Result Error Lease) (l : Lease)
      → (after_commit p).1 ≡ answers ack (some l)
      → p.1 ≡ ok l
  after_commit-ack (n, ok k) l e = ground arith
  after_commit-ack (n, err pool_exhausted) l e = cc
  after_commit-ack (n, err unavailable) l e = cc
  after_commit-ack (n, err (persist_failed stage)) l e = cc

  -- The decision is no acknowledgement of a lease, or the lease is committed.
  Acks : Lease → Manager × Decision → Type 0
  Acks l p = p.1 ≡ answers ack (some l) → IsCommitted (expired now m) p.0 client l

  if-Acks :
      (l : Lease) (b : Bool) (p q : Manager × Decision)
      → Acks l p
      → Acks l q
      → Acks l (if b then p else q)
  if-Acks l true p q h k = h
  if-Acks l false p q h k = k

  silent-Acks : (l : Lease) → Acks l (m, silent)
  unfolding Acks
  silent-Acks l e = cc

  commit-Acks :
      (l : Lease) (ip : Addr)
      → Acks l (after_commit (commit_with_fallback u now disk m client ip hostname fallback))
  unfolding Acks
  commit-Acks l ip e =
      rw (after_commit-state (commit_with_fallback u now disk m client ip hostname fallback))
        (commit_granted u now disk m client ip hostname fallback l (after_commit-ack _ l e)).2

  offer-Acks : (l : Lease) (p : Manager × Result Error Lease) → Acks l (after_offer p)
  unfolding Acks
  offer-Acks l (n, ok k) e = cc
  offer-Acks l (n, err pool_exhausted) e = cc
  offer-Acks l (n, err unavailable) e = cc
  offer-Acks l (n, err (persist_failed stage)) e = cc

  removal-Acks : (l : Lease) (p : Manager × Result Error (Unit {0})) → Acks l (after_removal p)
  unfolding Acks
  removal-Acks l (n, ok k) e = cc
  removal-Acks l (n, err pool_exhausted) e = cc
  removal-Acks l (n, err unavailable) e = cc
  removal-Acks l (n, err (persist_failed stage)) e = cc

  inform-Acks : (l : Lease) → Acks l (m, answers ack none)
  unfolding Acks
  inform-Acks l e = cc

  dispatch-Acks :
      (l : Lease) (kind : MessageType) (a : Addresses)
      → Acks l (dispatch u cfg now disk m client hostname fallback kind a)
  unfolding dispatch
  dispatch-Acks l discover a =
      if-Acks l (is_valid a.current || is_valid a.server) _ _ (silent-Acks l)
        (offer-Acks l (offer_with_fallback u now m client a.requested hostname fallback))
  dispatch-Acks l request a =
      if-Acks l (is_valid a.current) _ _
        (if-Acks l (is_valid a.requested || is_valid a.server) _ _ (silent-Acks l)
          (commit-Acks l a.current))
        (if-Acks l (not (is_valid a.requested)) _ _ (silent-Acks l) (commit-Acks l a.requested))
  dispatch-Acks l MessageType.release a =
      if-Acks l (not (addr_eq a.server cfg.server_ip) || not (is_valid a.current)) _ _
        (silent-Acks l) (removal-Acks l (release now disk m client a.current))
  dispatch-Acks l MessageType.decline a =
      if-Acks l
        (not (addr_eq a.server cfg.server_ip) || not (is_valid a.requested) || is_valid a.current) _
        _ (silent-Acks l) (removal-Acks l (decline now disk m client a.requested))
  dispatch-Acks l inform a =
      if-Acks l (not (is_valid a.current) || not (cfg.contains a.current)) _ _ (silent-Acks l)
        (inform-Acks l)
  dispatch-Acks l _ a = silent-Acks l

module _ {Reply : Type 0} (lib : Library Reply) (u : Unicode) (cfg : Config) (now : ℕ) (disk : Disk)
    (m : Manager) (r : Request) where
  -- On a valid manager a request that is decided to be acknowledged with a lease has that lease
  -- committed for its client when the handler returns: the client has it, its offer is gone,
  -- nothing else changed, and the lease file, where there is one, holds it.
  pub acknowledged-IsCommitted :
      (l : Lease)
      → IsValid m
      → (decide lib u cfg now disk m r).1 ≡ answers ack (some l)
      → IsCommitted (expired now m) (handle lib u cfg now disk m r).0 (client_identifier r) l
  unfolding handle decide Acks
  acknowledged-IsCommitted l v =
      let client = client_identifier r in
      let hostname = client_hostname lib.host_name r in
      let fallback = fallback_hostname lib.sha256 client in
      if-Acks u cfg now disk m client hostname fallback v l
        (not (is_well_formed r) || length client == 0) _ _
        (silent-Acks u cfg now disk m client hostname fallback v l)
        (if-Acks u cfg now disk m client hostname fallback v l
          (is_valid (ipv4 r.gateway_ip) && not (cfg.contains (ipv4 r.gateway_ip))) _ _
          (silent-Acks u cfg now disk m client hostname fallback v l)
          (if-Acks u cfg now disk m client hostname fallback v l _ _ _
            (silent-Acks u cfg now disk m client hostname fallback v l)
            (dispatch-Acks u cfg now disk m client hostname fallback v l (lib.message_type r)
              (addresses_of lib u cfg r))))

  decide_foreign :
      is_valid (ipv4 (lib.server_identifier r)) ≡ true
      → addr_eq (ipv4 (lib.server_identifier r)) cfg.server_ip ≡ false
      → decide lib u cfg now disk m r ≡ (m, silent)
  unfolding decide
  decide_foreign named differs =
      rw (named, differs)
        (both (m, silent) (not (is_well_formed r) || length (client_identifier r) == 0)
          (is_valid (ipv4 r.gateway_ip) && not (cfg.contains (ipv4 r.gateway_ip))))
    where
      both : (n : Manager × Decision) (b c : Bool) → (if b then n else if c then n else n) ≡ n
      both n true c = refl
      both n false true = refl
      both n false false = refl

  -- A request that names another server gets no reply and leaves the lease manager as it is.
  foreign_server_ignored :
      is_valid (ipv4 (lib.server_identifier r)) ≡ true
      → ipv4 (lib.server_identifier r) ≢ cfg.server_ip
      → handle lib u cfg now disk m r ≡ (m, no_reply)
  unfolding handle reply
  foreign_server_ignored named other_server =
      rw
        (decide_foreign named
          (addr_eq-ne (ipv4 (lib.server_identifier r)) cfg.server_ip other_server))
        refl

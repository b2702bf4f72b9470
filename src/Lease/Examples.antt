-- ===== src/Lease/Examples.antt =====
-- Runs of the lease manager, and concrete cases of its theorems.
use infrastructure_in_a_box.Prelude.{
  inr, ◌+◌, ◌≡◌, ◌↔◌, ◌⊎◌, ◌≢◌, ◌<◌, refl, false, List, [], ◌∷◌, none, some, arith,
}
use infrastructure_in_a_box.Prelude.Int.{pos}
use infrastructure_in_a_box.Prelude.Results.{ok, err}
use infrastructure_in_a_box.Prelude.Text.{Text, Unicode, bytes, to_lower, trim_space, trim_suffix}
use infrastructure_in_a_box.Lease.Address.{v4, v6, unmap}
use infrastructure_in_a_box.Lease.State.{Lease, State, expire, valid_client_id}
use infrastructure_in_a_box.Lease.Persistence.{
  File, missing, saved, restore, restore_saved, restore_leases, restore_lease, refused_hostname,
  restore_all_declined, remember_lease, Disk, encode,
}
use infrastructure_in_a_box.Lease.Manager.{
  Manager, Settings, unavailable, pool_exhausted, persist_failed, new_manager, reserve_names,
  lease_of, offer_of, expired,
}
use infrastructure_in_a_box.Lease.Offers.{offer_with_fallback}
use infrastructure_in_a_box.Lease.Commits.{commit_with_fallback, release, decline}
use infrastructure_in_a_box.Lease.Queries.{lookup_name, lookup_ip}
use infrastructure_in_a_box.Lease.Valid.{IsValid, expired-IsValid}
use infrastructure_in_a_box.Lease.Start.{new_manager-IsValid}
use infrastructure_in_a_box.Names.Labels.{valid_dns_name}
use infrastructure_in_a_box.Names.Hostname.{qualify, normalize_hostname}
use infrastructure_in_a_box.Lease.Valid.{IsGood}
use infrastructure_in_a_box.Lease.Restart.{restore-IsSound}
use infrastructure_in_a_box.Lease.Invariant.{IsSound}
use infrastructure_in_a_box.Lease.Answers.{
  IsExhausted, offer_exhausted_iff, offer_granted, offer_gives_requested,
}
use infrastructure_in_a_box.Lease.Effects.{
  IsCommitted, Untouched, commit_unavailable_iff, commit_granted, commit_failed,
}
use infrastructure_in_a_box.Lease.Renewal.{offer_keeps_address}
use infrastructure_in_a_box.Lease.Lookups.{lookup_ip_iff, lookup_name_iff}
use infrastructure_in_a_box.Lease.Runs.{perform, Timed, offers, commits, run, run-IsValid}

-- Tables that change nothing: the names below are ASCII.
abbrev plain : Unicode
plain = record { lower = λ s. s; trim = λ s. s }

abbrev settings : Settings
settings = record {
  pool_start = v4 10;
  pool_end = v4 11;
  domain = bytes "Box.Lan.";
  lease_duration = pos 3600;
  offer_duration = pos 60;
  decline_duration = pos 600;
  reserved_names = bytes "printer" ∷ [];
  file = bytes "leases.json";
}

abbrev fine : Disk
fine = record { failure = none }

abbrev full_disk : Disk
full_disk = record { failure = some encode }

abbrev ada : Text
ada = bytes "id:01aa"

abbrev bob : Text
bob = bytes "id:01bb"

abbrev empty : Manager
empty = record {
  cfg = record {
    pool_start = v4 10;
    pool_end = v4 11;
    domain = bytes "box.lan";
    lease_duration = 3600;
    offer_duration = 60;
    decline_duration = 600;
    file = bytes "leases.json";
  };
  reserved = bytes "printer.box.lan." ∷ bytes "ns.box.lan." ∷ bytes "gateway.box.lan." ∷ [];
  state = record { leases = []; offers = []; declined = [] };
  file = missing;
}

-- What a run of the manager unfolds.
program : Unit {0}
unfolding new_manager restore run perform offer_with_fallback commit_with_fallback release decline
    lookup_name lookup_ip valid_dns_name trim_space to_lower trim_suffix reserve_names qualify
    restore_saved restore_leases restore_lease refused_hostname restore_all_declined remember_lease
program = tt

started : new_manager plain settings missing 0 ≡ ok empty
unfolding program
started = refl

new_manager-IsValid_example : IsValid empty
new_manager-IsValid_example =
    new_manager-IsValid plain settings missing 0 empty (omega arith) (omega arith) started

abbrev ada_lease : Lease
ada_lease = record {
  client_id = ada;
  ip = v4 10;
  hostname = bytes "desk.box.lan.";
  expires_at = 3601;
}

-- One client has a lease, another an offer, and the pool of two addresses is used up.
abbrev calls : List Timed
calls =
    record { now = 1; disk = fine; call = commits ada (v6 281470681743370 []) (bytes "Desk") [] }
    ∷ record { now = 2; disk = fine; call = offers bob (v4 10) [] (bytes "host-1") }
    ∷ []

abbrev used : Manager
used = run plain empty calls

used-IsValid : IsValid used
used-IsValid = run-IsValid plain empty calls new_manager-IsValid_example

run-IsValid_example : IsValid (run plain empty calls)
run-IsValid_example = run-IsValid plain empty calls new_manager-IsValid_example

test_lookup : (lookup_ip 3 used (v4 10)).1 ≡ some ada_lease
unfolding program
test_lookup = refl

test_name : (lookup_name plain 3 used (bytes "DESK.box.lan")).1 ≡ some ada_lease
unfolding program
test_name = refl

test_exhausted :
    (offer_with_fallback plain 4 used (bytes "id:01cc") (v4 10) [] []).1 ≡ err pool_exhausted
unfolding program
test_exhausted = refl

abbrev kept_file : File
kept_file = saved (record { version = pos 1; leases = ada_lease ∷ []; declined = [] })

abbrev kept_state : State
kept_state = record { leases = (ada, ada_lease) ∷ []; offers = []; declined = [] }

restarted : restore plain empty.cfg empty.reserved 5 kept_file ≡ ok kept_state
unfolding program
restarted = refl

restore-IsSound_example : IsSound empty.cfg empty.reserved kept_state
restore-IsSound_example =
    restore-IsSound plain empty.cfg empty.reserved 5 new_manager-IsValid_example.config kept_file
      kept_state restarted

offer_exhausted_iff_example :
    ((offer_with_fallback plain 4 used (bytes "id:01cc") (v4 10) [] []).1 ≡ err pool_exhausted)
    ↔ IsExhausted (expired 4 used) (expired-IsValid 4 used used-IsValid) (bytes "id:01cc")
unfolding program
offer_exhausted_iff_example =
    offer_exhausted_iff plain 4 used (bytes "id:01cc") (v4 10) [] [] used-IsValid refl

abbrev renewed : Lease
renewed = record { client_id = ada; ip = v4 10; hostname = bytes "desk.box.lan."; expires_at = 64 }

renews : (offer_with_fallback plain 4 used ada (v4 11) [] []).1 ≡ ok renewed
unfolding program
renews = refl

offer_granted_example :
    let next = (offer_with_fallback plain 4 used ada (v4 11) [] []).0 in
    IsGood (expired 4 used) ada (v4 10)
    × (renewed.client_id ≡ ada)
    × (renewed.expires_at ≡ 4 + used.cfg.offer_duration)
    × (offer_of next.state ada ≡ some renewed)
    × (next.state.leases ≡ (expire 4 used.state).leases)
unfolding program
offer_granted_example = offer_granted plain 4 used ada (v4 11) [] [] used-IsValid renewed renews

abbrev offered : Manager
offered = (offer_with_fallback plain 4 used ada (v4 11) [] []).0

offer_keeps_address_example :
    (l : Lease) × ((offer_with_fallback plain 30 offered ada (v4 11) [] []).1 ≡ ok l)
    × (l.ip ≡ renewed.ip)
unfolding program
offer_keeps_address_example =
    offer_keeps_address plain 4 fine used ada (v4 11) [] [] used-IsValid renewed 30 (omega arith)
      (v4 11) [] [] offered (inr refl)

first_offer : Lease
first_offer = record { client_id = bob; ip = v4 11; hostname = []; expires_at = 64 }

v11-IsGood : IsGood (expired 4 empty) bob (v4 11)
unfolding program
v11-IsGood = record {
  inside = refl;
  clear = record { unheld = λ d l h e. ground arith; kept = refl };
}

offer_gives_requested_example : v4 11 ≡ unmap (v4 11)
unfolding program first_offer
offer_gives_requested_example =
    offer_gives_requested plain 4 empty bob (v4 11) [] [] new_manager-IsValid_example first_offer
      refl refl refl v11-IsGood

commit_unavailable_iff_example :
    ((commit_with_fallback plain 4 fine used bob (v4 10) [] []).1 ≡ err unavailable)
    ↔ ((valid_client_id bob ≡ false) ⊎ (¬ IsGood (expired 4 used) bob (unmap (v4 10))))
commit_unavailable_iff_example =
    commit_unavailable_iff plain 4 fine used bob (v4 10) [] [] used-IsValid

abbrev bob_lease : Lease
bob_lease = record {
  client_id = bob;
  ip = v4 11;
  hostname = bytes "host-1.box.lan.";
  expires_at = 3604;
}

commit_granted_example :
    (v4 11 ≡ unmap (v4 11))
    × (3604 ≡ 4 + 3600)
    × IsCommitted
        (expired 4 used)
        (commit_with_fallback plain 4 fine used bob (v4 11) [] []).0
        bob
        bob_lease
unfolding program
commit_granted_example = commit_granted plain 4 fine used bob (v4 11) [] [] bob_lease refl

commit_failed_example :
    Untouched 4 used (commit_with_fallback plain 4 full_disk used bob (v4 11) [] []).0
unfolding program
commit_failed_example =
    commit_failed plain 4 full_disk used bob (v4 11) [] [] (persist_failed encode) refl

lookup_ip_iff_example :
    ((lookup_ip 3 used (v4 10)).1 ≡ some ada_lease)
    ↔ ((lease_of used.state ada ≡ some ada_lease) × (3 < 3601) × (v4 10 ≡ unmap (v4 10)))
lookup_ip_iff_example = lookup_ip_iff 3 used (v4 10) ada_lease used-IsValid

lookup_name_iff_example : ((lookup_name plain 3 used (bytes "desk")).1 ≡ some ada_lease) ↔ (
    (lease_of used.state ada ≡ some ada_lease)
    × (3 < 3601)
    × (bytes "desk.box.lan." ≡ normalize_hostname plain (bytes "desk") (bytes "box.lan"))
    × (bytes "desk.box.lan." ≢ []))
unfolding program
lookup_name_iff_example = lookup_name_iff plain 3 used (bytes "desk") ada_lease used-IsValid

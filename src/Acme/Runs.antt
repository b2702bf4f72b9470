-- ===== src/Acme/Runs.antt =====
-- Any sequence of requests to the ACME server and of restarts. The mutex makes every interleaving
-- of the handlers such a sequence, with the validation of a challenge between two of its steps.
use infrastructure_in_a_box.Prelude.{ℕ, ◌≢◌, Bool, List, [], Option, none, some}
use infrastructure_in_a_box.Prelude.Table.{get}
use infrastructure_in_a_box.Prelude.Text.{Text}
use infrastructure_in_a_box.Acme.State.{Target, State, Server}
use infrastructure_in_a_box.Acme.Store.{Disk, restart}
use infrastructure_in_a_box.Acme.Accounts.{
  Signed, AccountInput, touched, new_account, account, key_change,
}
use infrastructure_in_a_box.Acme.Orders.{
  Site, OrderInput, AuthorizationInput, new_order, get_authorization,
}
use infrastructure_in_a_box.Acme.Challenges.{ChallengeInput, challenge_begin, challenge_finish}
use infrastructure_in_a_box.Acme.Issuance.{Authority, finalize}
use infrastructure_in_a_box.Acme.Revocation.{Signer, RevocationInput, revoke_certificate, serve_crl}
use infrastructure_in_a_box.Acme.Invariant.{IsSound}
use infrastructure_in_a_box.Acme.Effects.{recover-IsSound}
use infrastructure_in_a_box.Acme.Keeping.{IsIntact, touched-IsIntact}
use infrastructure_in_a_box.Acme.Handling.{
  challenge_begin-IsIntact, challenge_finish-IsIntact, get_authorization-IsIntact,
}
use infrastructure_in_a_box.Acme.Requests.{
  new_account-IsIntact, account-IsIntact, key_change-IsIntact,
}
use infrastructure_in_a_box.Acme.Certifying.{IsFresh, new_order-IsIntact, finalize-IsIntact}
use infrastructure_in_a_box.Acme.Revoking.{revoke_certificate-IsIntact, serve_crl-IsIntact}

-- The snapshot of a first start, and the server that holds it.
abbrev pub new_state : State
new_state = record {
  lease_limits = [];
  accounts = [];
  orders = [];
  authorizations = [];
  certificates = [];
  crl = [];
  crl_number = 0;
  crl_next_update = 0;
}

abbrev pub new_server : Server
new_server = record { state = new_state; activity = []; stored = new_state }

module _ (site : Site) (ca : Authority) (signer : Signer) where
  -- One request, at any time and with any luck in writing the file. The requests that only read
  -- note the activity of an account.
  pub data Step (s : Server) : Server → Type 0 where
    reads : (now : ℕ) (account_id : Text) → Step s (touched now s account_id)
    registers :
        (now : ℕ) (disk : Disk) (signed : Signed) (source : Text) (input : AccountInput)
        (drawn : Option Text)
        → Step s (new_account now disk s signed source input drawn).0
    updates :
        (now : ℕ) (disk : Disk) (signed : Signed) (account_id id : Text) (input : AccountInput)
        → Step s (account site.base_url now disk s signed account_id id input).0
    rolls_over :
        (now : ℕ) (disk : Disk) (signed : Signed) (account_id : Text) (inner : Signed)
        → Step s (key_change site.base_url now disk s signed account_id inner).0
    orders :
        (now : ℕ) (disk : Disk) (signed : Signed) (account_id source : Text)
        (input : Option OrderInput) (drawn : List Text)
        → IsFresh drawn s.state
        → Step s (new_order site now disk s signed account_id source input drawn).0
    authorizes :
        (now : ℕ) (disk : Disk) (signed : Signed) (account_id id : Text)
        (input : AuthorizationInput)
        → Step s (get_authorization site now disk s signed account_id id input).0
    challenges :
        (now : ℕ) (disk : Disk) (signed : Signed) (account_id id : Text) (input : ChallengeInput)
        (has_slot : Bool)
        → Step s (challenge_begin site now disk s signed account_id id input has_slot).0
    concludes :
        (now : ℕ) (disk : Disk) (signed : Signed) (account_id id : Text) (outcome : Option Target)
        → Step s (challenge_finish site now disk s signed account_id id outcome).0
    finalizes :
        (now : ℕ) (disk : Disk) (signed : Signed) (account_id id : Text) (csr drawn : Option Text)
        → Step s (finalize site ca now disk s signed account_id id csr drawn).0
    revokes :
        (now : ℕ) (disk : Disk) (signed : Signed) (input : RevocationInput)
        → Step s (revoke_certificate site ca signer now disk s signed input).0
    lists : (now : ℕ) (disk : Disk) → Step s (serve_crl signer now disk s).0
    restarts : Step s (restart s)

  pub data Reach (s : Server) : Server → Type 0 where
    here : Reach s s
    next : {t u : Server} → Reach s t → Step t u → Reach s u

  pub Step-IsIntact : {s t : Server} → Step s t → IsIntact s → IsIntact t
  unfolding restart
  Step-IsIntact {s} (reads now account_id) h = touched-IsIntact now s account_id h
  Step-IsIntact {s} (registers now disk signed source input drawn) h =
      new_account-IsIntact now disk s signed source input drawn h
  Step-IsIntact {s} (updates now disk signed account_id id input) h =
      account-IsIntact site.base_url now disk s signed account_id id input h
  Step-IsIntact {s} (rolls_over now disk signed account_id inner) h =
      key_change-IsIntact site.base_url now disk s signed account_id inner h
  Step-IsIntact {s} (orders now disk signed account_id source input drawn fresh) h =
      new_order-IsIntact site now disk s signed account_id source input drawn h fresh
  Step-IsIntact {s} (authorizes now disk signed account_id id input) h =
      get_authorization-IsIntact site now disk s signed account_id id input h
  Step-IsIntact {s} (challenges now disk signed account_id id input has_slot) h =
      challenge_begin-IsIntact site now disk s signed account_id id input has_slot h
  Step-IsIntact {s} (concludes now disk signed account_id id outcome) h =
      challenge_finish-IsIntact site now disk s signed account_id id outcome h
  Step-IsIntact {s} (finalizes now disk signed account_id id csr drawn) h =
      finalize-IsIntact site ca now disk s signed account_id id csr drawn h
  Step-IsIntact {s} (revokes now disk signed input) h =
      revoke_certificate-IsIntact site ca signer now disk s signed input h
  Step-IsIntact {s} (lists now disk) h = serve_crl-IsIntact signer now disk s h
  Step-IsIntact {s} restarts h = record {
    sound = recover-IsSound s.stored h.stored;
    stored = h.stored;
  }

  pub Reach-IsIntact : {s t : Server} → Reach s t → IsIntact s → IsIntact t
  Reach-IsIntact here h = h
  Reach-IsIntact (next r st) h = Step-IsIntact st (Reach-IsIntact r h)

none≢some : {A : Type 0} {a : A} → none ≢ some a
none≢some e = cc

pub new_state-IsSound : IsSound new_state
unfolding get
new_state-IsSound = record {
  orders_map = tt;
  authorizations_map = tt;
  order_key = λ k o e. cc;
  authorization_key = λ x a e. cc;
  listed = λ k o x e i. absurd (none≢some e);
  attached = λ x a e. absurd (none≢some e);
  ready = λ k o x e r i. absurd (none≢some e);
  consistent = λ x a e. absurd (none≢some e);
}

-- Whatever requests the ACME server handles, at whatever times, with any failures of the disk,
-- restarts and validations that end at any moment, as long as the names that randomID draws for an
-- order are new: both in memory and on disk every order and authorization stands under its own
-- name, every authorization that an order lists exists and belongs to the order and its account, no
-- authorization outlives its order, an order is ready only when all its authorizations are valid, a
-- challenge runs only while its authorization waits, and a valid authorization has a validated
-- challenge.
pub reachable-IsIntact :
    (site : Site) (ca : Authority) (signer : Signer) (s : Server)
    → Reach site ca signer new_server s
    → IsIntact s
reachable-IsIntact site ca signer s r =
    Reach-IsIntact site ca signer r
      (record { sound = new_state-IsSound; stored = new_state-IsSound })

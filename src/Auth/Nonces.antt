-- ===== src/Auth/Nonces.antt =====
-- internal/acmeauth/auth.go: Nonce and consume.
use infrastructure_in_a_box.Prelude.{
  ℕ, ◌+◌, ◌*◌, Bool, false, ◌&&◌, List, [], ◌∷◌, ◌++◌, Option, none, some, if◌then◌else◌, ltb, ◌==◌,
  length,
}
use infrastructure_in_a_box.Prelude.Text.{Text, text_discrete}
use infrastructure_in_a_box.Prelude.Table.{Table, get, put, erase}

abbrev pub max_nonces : ℕ
max_nonces = 8192

abbrev pub nonce_ttl : ℕ
nonce_ttl = 600 * 1_000_000_000

-- An element of the queue, with a number that tells it from the others.
pub record Element : Type 0 where
  pub id : ℕ
  pub value : Text
  pub expires : ℕ

-- The verifier's map and its queue, oldest first.
pub record Verifier : Type 0 where
  pub next_id : ℕ
  pub nonces : Table Text Element
  pub queue : List Element

abbrev pub new_verifier : Verifier
new_verifier = record { next_id = 0; nonces = []; queue = [] }

-- The loop of Nonce over the front of the queue.
unfoldable pub evict : ℕ → List Element → Table Text Element → List Element × Table Text Element
unfolding erase text_discrete
evict now [] m = ([], m)
evict now (e ∷ queue) m =
    let rest = evict now queue (erase text_discrete e.value m) in
    if ltb (length m) max_nonces && ltb now e.expires then (e ∷ queue, m) else rest

-- Nonce, with the text that the random bytes encode to.
unfoldable pub issue : ℕ → Text → Verifier → Verifier
unfolding evict put text_discrete
issue now nonce v =
    let left = evict now v.queue v.nonces in
    let e : Element = record { id = v.next_id; value = nonce; expires = now + nonce_ttl } in
    record {
      next_id = v.next_id + 1;
      nonces = put text_discrete nonce e left.1;
      queue = left.0 ++ (e ∷ []);
    }

-- queue.Remove.
unfoldable pub remove : ℕ → List Element → List Element
remove id [] = []
remove id (e ∷ queue) = let rest = remove id queue in if e.id == id then queue else e ∷ rest

abbrev consume_found : ℕ → Text → Verifier → Option Element → Verifier × Bool
consume_found now nonce v none = (v, false)
consume_found now nonce v (some e) = (
  record v { nonces = erase text_discrete nonce v.nonces; queue = remove e.id v.queue },
  ltb now e.expires,
)

-- consume.
unfoldable pub consume : ℕ → Text → Verifier → Verifier × Bool
unfolding get erase text_discrete remove
consume now nonce v = consume_found now nonce v (get text_discrete nonce v.nonces)

-- What happens to a verifier, and the verifier behind a history, latest event first.
pub data Event : Type 0 where
  issues consumes : ℕ → Text → Event

unfoldable pub after : List Event → Verifier
unfolding issue consume
after [] = new_verifier
after (issues now nonce ∷ events) = issue now nonce (after events)
after (consumes now nonce ∷ events) = (consume now nonce (after events)).0

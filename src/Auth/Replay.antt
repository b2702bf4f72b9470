-- ===== src/Auth/Replay.antt =====
-- When a nonce is accepted.
use infrastructure_in_a_box.Prelude.{
  ℕ, ◌≡◌, ◌≢◌, ◌⊎◌, ◌+◌, ◌<◌, sym, ◌∙◌, ap, inl, inr, true, ◌&&◌, List, [], ◌∷◌, none, some, arith,
  Bool-cases, Option-cases, ltb, length,
}
use infrastructure_in_a_box.Prelude.Text.{Text, text_discrete}
use infrastructure_in_a_box.Prelude.Table.{Table, get, erase, get-erase, put-from}
use infrastructure_in_a_box.Auth.Nonces.{
  Element, Verifier, max_nonces, nonce_ttl, evict, issue, consume, Event, issues, consumes, after,
}

some≢none : {A : Type 0} {a : A} → some a ≢ none
some≢none e = cc

-- The nonce was issued less than ten minutes ago and not consumed since, well or not.
abbrev pub IsLive : ℕ → Text → List Event → Type 0
IsLive now nonce [] = ⊥
IsLive now nonce (issues time other ∷ events) =
    ((other ≡ nonce) × (now < time + nonce_ttl)) ⊎ ((other ≢ nonce) × IsLive now nonce events)
IsLive now nonce (consumes time other ∷ events) = (other ≢ nonce) × IsLive now nonce events

erase-some :
    {V : Type 0} (k j : Text) (v : V) (m : Table Text V)
    → get text_discrete j (erase text_discrete k m) ≡ some v
    → (k ≢ j) × (get text_discrete j m ≡ some v)
erase-some k j v m h = elim (text_discrete k j) [
  | yes e ↦ absurd (ground (arith, get-erase text_discrete k j m))
  | no n ↦ (n, ground (arith, get-erase text_discrete k j m))
]

-- What is left behind the loop was there before.
evict-some :
    (now : ℕ) (queue : List Element) (m : Table Text Element) (k : Text) (e : Element)
    → get text_discrete k (evict now queue m).1 ≡ some e
    → get text_discrete k m ≡ some e
unfolding evict
evict-some now [] m k e h = h
evict-some now (f ∷ queue) m k e h =
    elim (Bool-cases (ltb (length m) max_nonces && ltb now f.expires)) [
      | inl stays ↦ rw stays at h
      | inr goes ↦
          (erase-some f.value k e m
            (evict-some now queue (erase text_discrete f.value m) k e (rw goes at h))).1
    ]

found-IsLive :
    (events : List Event) (now : ℕ) (nonce : Text) (e : Element)
    → get text_discrete nonce (after events).nonces ≡ some e
    → now < e.expires
    → IsLive now nonce events
unfolding after issue consume
found-IsLive [] now nonce e h live = cc
found-IsLive (issues time other ∷ events) now nonce e h live =
    let v : Verifier = after events in
    let made : Element = record { id = v.next_id; value = other; expires = time + nonce_ttl } in
    elim (put-from text_discrete other nonce made e (evict time v.queue v.nonces).1 h) [
      | inl (same, new) ↦ inl (same, omega (arith, live, ap (λ e. e.expires) new))
      | inr (n, old) ↦
          inr
            (n, found-IsLive events now nonce e (evict-some time v.queue v.nonces nonce e old) live)
    ]
found-IsLive (consumes time other ∷ events) now nonce e h live =
    elim (Option-cases (get text_discrete other (after events).nonces)) [
      | inl missing ↦
          let same : get text_discrete nonce (after events).nonces ≡ some e =
            rw (missing, after, consume) at h in
          (
            λ q.
                some≢none (
                  sym same ∙ ap (λ k. get text_discrete k (after events).nonces) (sym q) ∙ missing),
            found-IsLive events now nonce e same live,
          )
      | inr (f, there) ↦
          let (n, old) =
            erase-some other nonce e (after events).nonces (rw (there, after, consume) at h) in
          (n, found-IsLive events now nonce e old live)
    ]

-- Whatever nonces were issued and consumed before, a nonce that is accepted was issued less than
-- ten minutes ago, and has not been consumed since it was last issued.
pub accepted-IsLive :
    (events : List Event) (now : ℕ) (nonce : Text)
    → (consume now nonce (after events)).1 ≡ true
    → IsLive now nonce events
unfolding consume
accepted-IsLive events now nonce h =
    elim (Option-cases (get text_discrete nonce (after events).nonces)) [
      | inl none_ ↦ absurd (ground arith)
      | inr (e, found) ↦ found-IsLive events now nonce e found (ground arith)
    ]

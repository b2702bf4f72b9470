-- ===== src/Tftp/Exchanges.antt =====
-- An exchange ends well only by the client's own acknowledgement.
use infrastructure_in_a_box.Prelude.{
  ℕ, zero, suc, ◌+◌, ◌<◌, ◌≡◌, refl, ap, ◌∙◌, ◌⊎◌, inl, inr, true, List, [], ◌∷◌, ◌++◌, none,
  if◌then◌else◌, length, drop, take_whole, length-take, arith, holds, Bool-cases, Option-cases,
  subst,
}
use infrastructure_in_a_box.Prelude.Text.{Text, bytes}
use infrastructure_in_a_box.Prelude.Numbers.{uint16_at}
use infrastructure_in_a_box.Tftp.Exchange.{
  Peer, Peer-discrete, Read, datagram, deadline_passed, read_failed, Attempt, Waited, acknowledged,
  timed_out, gave_up, Sent, Exchanged, wait, attempts, exchange, received, is_acknowledgement,
  fault, conclude,
}

-- RFC 1350: an ACK of the block is the opcode 4 and the block's number, in four bytes.
abbrev pub IsAck : ℕ → Text → Type 0
IsAck block bytes = (length bytes ≡ 4) × (uint16_at bytes ≡ 4) × (uint16_at (drop 2 bytes) ≡ block)

-- The reads hold an acknowledgement of the block from the peer.
abbrev pub Acknowledges : Peer → ℕ → List Read → Type 0
Acknowledges peer block [] = ⊥
Acknowledges peer block (deadline_passed ∷ reads) = ⊥
Acknowledges peer block (read_failed ∷ reads) = ⊥
Acknowledges peer block (datagram sender bytes answered ∷ reads) =
    ((sender ≡ peer) × IsAck block bytes) ⊎ Acknowledges peer block reads

-- The cut of longer datagrams makes none of them an acknowledgement.
is_acknowledgement-IsAck :
    (block : ℕ) (bytes : Text)
    → is_acknowledgement block (received bytes) ≡ true
    → IsAck block bytes
is_acknowledgement-IsAck block bytes e =
    let size : length (received bytes) ≡ 4 = ground arith in
    let whole : received bytes ≡ bytes =
      take_whole 513 bytes (omega (arith, length-take 513 bytes)) in
    let good : is_acknowledgement block bytes ≡ true = rw whole at e in
    (ground arith, ground arith, ground arith)

wait-Acknowledges :
    (peer : Peer) (block : ℕ) (reads : List Read)
    → (wait peer block reads).0 ≡ acknowledged
    → Acknowledges peer block reads
unfolding wait
wait-Acknowledges peer block [] e = cc
wait-Acknowledges peer block (deadline_passed ∷ reads) e = cc
wait-Acknowledges peer block (read_failed ∷ reads) e = cc
wait-Acknowledges peer block (datagram sender bytes answered ∷ reads) e =
    elim (Peer-discrete sender peer) [
      | no stranger ↦ inr (ground (arith, wait-Acknowledges peer block reads))
      | yes same ↦ elim (Bool-cases (is_acknowledgement block (received bytes))) [
        | inl ack ↦ inl (same, is_acknowledgement-IsAck block bytes ack)
        | inr other ↦ inr (ground (arith, wait-Acknowledges peer block reads))
      ]
    ]

-- What went out to the peer.
abbrev pub sent_to : Peer → List Sent → List Text
sent_to peer [] = []
sent_to peer (s ∷ ss) =
    if holds (Peer-discrete s.to peer) then s.packet ∷ sent_to peer ss else sent_to peer ss

-- `n` copies of a packet.
abbrev pub copies : ℕ → Text → List Text
copies zero packet = []
copies (suc n) packet = packet ∷ copies n packet

-- While it waits the server answers strangers only.
wait-sent_to :
    (peer : Peer) (block : ℕ) (reads : List Read) → sent_to peer (wait peer block reads).1 ≡ []
unfolding wait
wait-sent_to peer block [] = refl
wait-sent_to peer block (deadline_passed ∷ reads) = refl
wait-sent_to peer block (read_failed ∷ reads) = refl
wait-sent_to peer block (datagram sender bytes answered ∷ reads) =
    ground (arith, wait-sent_to peer block reads)

sent_to-append :
    (peer : Peer) (a b : List Sent) → sent_to peer (a ++ b) ≡ sent_to peer a ++ sent_to peer b
sent_to-append peer [] b = refl
sent_to-append peer (s ∷ a) b = ground (arith, sent_to-append peer a b)

-- What an attempt that goes out sends the peer, with what the attempts after it do.
sent_to-attempt :
    (peer : Peer) (packet : Text) (block : ℕ) (reads : List Read) (more : List Sent)
    → sent_to peer ((record { to = peer; packet = packet } ∷ (wait peer block reads).1) ++ more)
      ≡ packet ∷ sent_to peer more
sent_to-attempt peer packet block reads more =
    rw (sent_to-append peer (wait peer block reads).1 more, wait-sent_to peer block reads)
      (ground arith)

sent_to-last :
    (peer : Peer) (packet : Text) (block : ℕ) (reads : List Read)
    → sent_to peer (record { to = peer; packet = packet } ∷ (wait peer block reads).1) ≡ packet ∷ []
sent_to-last peer packet block reads = rw (wait-sent_to peer block reads) (ground arith)

-- Of the attempts from `i` on, `left` at most, one brought the acknowledgement and was the last that
-- was used; the packet went out as many times as attempts were used, and nothing else to the peer.
pub record IsDelivery (left : ℕ) (net : ℕ → Attempt) (i : ℕ) (peer : Peer) (packet : Text)
    (block : ℕ) (e : Exchanged) : Type 0 where
  pub tries : ℕ
  pub within : tries < left
  pub answered : Acknowledges peer block (net (i + tries)).reads
  pub spent : e.rest ≡ i + tries + 1
  pub only : sent_to peer e.sent ≡ copies (suc tries) packet

-- An exchange that ends well does so in an attempt whose reads hold the acknowledgement.
attempts-IsDelivery :
    (left : ℕ) (net : ℕ → Attempt) (i : ℕ) (peer : Peer) (packet : Text) (block : ℕ)
    → (attempts left net i peer packet block).failure ≡ none
    → IsDelivery left net i peer packet block (attempts left net i peer packet block)
unfolding attempts
attempts-IsDelivery zero net i peer packet block e = cc
attempts-IsDelivery (suc left) net i peer packet block e = elim (Option-cases (fault (net i))) [
  | inr (f, faulty) ↦ cc (rw (faulty, attempts) at e)
  | inl fine ↦
      rw (fine, attempts)
        (go (λ h. attempts-IsDelivery left net (i + 1) peer packet block h)
          (wait peer block (net i).reads).0 refl (rw (fine, attempts) at e))
]
  where
    again : Exchanged
    again = attempts left net (i + 1) peer packet block

    sent : List Sent
    sent = record { to = peer; packet = packet } ∷ (wait peer block (net i).reads).1

    go :
        (again.failure ≡ none → IsDelivery left net (i + 1) peer packet block again)
        → (w : Waited) → (wait peer block (net i).reads).0 ≡ w
        → (conclude w sent again (i + 1)).failure ≡ none
        → IsDelivery (suc left) net i peer packet block (conclude w sent again (i + 1))
    go ih acknowledged q h = record {
      tries = 0;
      within = omega arith;
      answered =
          subst (λ (j : ℕ). Acknowledges peer block (net j).reads) (omega arith)
            (wait-Acknowledges peer block (net i).reads q);
      spent = omega arith;
      only = sent_to-last peer packet block (net i).reads;
    }
    go ih timed_out q h =
        let d = ih h in
        record {
          tries = suc d.tries;
          within = omega (arith, d.within);
          answered =
              subst (λ (j : ℕ). Acknowledges peer block (net j).reads) (omega arith) d.answered;
          spent = omega (arith, d.spent);
          only =
              sent_to-attempt peer packet block (net i).reads again.sent
              ∙ ap (λ (ps : List Text). packet ∷ ps) d.only;
        }
    go ih (gave_up f) q h = cc

-- An exchange that ends well was answered, in an attempt `k` of at most five, by the peer with an
-- ACK of just this block. It used the attempts up to that one and no more, the packet went out `k +
-- 1` times, and nothing else went to the peer, whatever else arrived.
pub exchange-IsDelivery :
    (net : ℕ → Attempt) (i : ℕ) (peer : Peer) (packet : Text) (block : ℕ)
    → (exchange net i peer packet block).failure ≡ none
    → IsDelivery 5 net i peer packet block (exchange net i peer packet block)
unfolding exchange
exchange-IsDelivery net i peer packet block = attempts-IsDelivery 5 net i peer packet block

-- The reads without those from strangers.
abbrev pub own : Peer → List Read → List Read
own peer [] = []
own peer (deadline_passed ∷ reads) = deadline_passed ∷ own peer reads
own peer (read_failed ∷ reads) = read_failed ∷ own peer reads
own peer (datagram sender bytes answered ∷ reads) =
    if holds (Peer-discrete sender peer)
    then datagram sender bytes answered ∷ own peer reads
    else own peer reads

-- Every stranger can be answered.
abbrev pub Answerable : List Read → Type 0
Answerable [] = Unit {0}
Answerable (datagram sender bytes answered ∷ reads) = (answered ≡ true) × Answerable reads
Answerable (r ∷ reads) = Answerable reads

-- Where every stranger can be answered, no stranger's datagram, whatever it holds, acknowledges or
-- ends a transfer: the outcome of an attempt is that of the peer's own datagrams.
pub wait-own :
    (peer : Peer) (block : ℕ) (reads : List Read)
    → Answerable reads
    → (wait peer block reads).0 ≡ (wait peer block (own peer reads)).0
unfolding wait
wait-own peer block [] h = refl
wait-own peer block (deadline_passed ∷ reads) h = refl
wait-own peer block (read_failed ∷ reads) h = refl
wait-own peer block (datagram sender bytes answered ∷ reads) h =
    ground (arith, wait-own peer block reads h.1)

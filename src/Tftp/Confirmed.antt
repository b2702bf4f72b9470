-- ===== src/Tftp/Confirmed.antt =====
-- Each packet of a transfer is acknowledged before the next goes out.
use infrastructure_in_a_box.Prelude.{
  ℕ, zero, suc, ◌+◌, ◌%◌, ◌≡◌, inl, inr, List, [], ◌∷◌, ltb, length, take, drop, Bool-cases,
  Option-cases,
}
use infrastructure_in_a_box.Prelude.Text.{Text}
use infrastructure_in_a_box.Tftp.Exchange.{Peer, Attempt, exchange, Exchanged}
use infrastructure_in_a_box.Tftp.Exchanges.{IsDelivery, exchange-IsDelivery}
use infrastructure_in_a_box.Tftp.Transfer.{World, completed, data_packet, send_blocks}

-- From the attempt `i` on, the packets went to the peer one after the other, each answered by the
-- ACK of its own number before the next went out; the numbers begin at `round`.
pub data Confirmed (net : ℕ → Attempt) (peer : Peer) : ℕ → ℕ → List Text → Type 0 where
  finished : (i round : ℕ) → Confirmed net peer i round []
  confirmed :
      (i round : ℕ) (packet : Text) (packets : List Text)
      → IsDelivery 5 net i peer packet (round % 65536) (exchange net i peer packet (round % 65536))
      → Confirmed net peer (exchange net i peer packet (round % 65536)).rest (round + 1) packets
      → Confirmed net peer i round (packet ∷ packets)

module _ (w : World) (peer : Peer) (size : ℕ) where
  pub send_blocks-Confirmed :
      (fuel round i : ℕ) (left : Text)
      → (send_blocks w peer size fuel round i left).outcome ≡ completed
      → Confirmed w.net peer i round (send_blocks w peer size fuel round i left).packets
  unfolding send_blocks
  send_blocks-Confirmed zero round i left e = cc
  send_blocks-Confirmed (suc fuel) round i left e = elim (Bool-cases (w.done round)) [
    | inl done ↦ cc (rw (done, send_blocks) at e)
    | inr going ↦ elim (Bool-cases (w.read_fails round)) [
      | inl fails ↦ cc (rw (going, fails, send_blocks) at e)
      | inr reads ↦ elim (Option-cases sent.failure) [
        | inr (f, failed) ↦ cc (rw (going, reads, failed, send_blocks) at e)
        | inl acked ↦
            let delivery =
              exchange-IsDelivery w.net i peer (data_packet round (take size left)) (round % 65536)
                acked in
            elim (Bool-cases (ltb (length (take size left)) size)) [
              | inl short ↦
                  rw (going, reads, acked, short, send_blocks)
                    (confirmed i round _ [] delivery (finished sent.rest (round + 1)))
              | inr full ↦
                  rw (going, reads, acked, full, send_blocks)
                    (confirmed i round _ _ delivery (
                      send_blocks-Confirmed fuel (round + 1) sent.rest (drop size left)
                        (rw (going, reads, acked, full, send_blocks) at e)))
            ]
      ]
    ]
  ]
    where
      sent : Exchanged
      sent = exchange w.net i peer (data_packet round (take size left)) (round % 65536)

-- ===== src/Tftp/Delivery.antt =====
-- A transfer that completes has delivered the file.
use infrastructure_in_a_box.Prelude.{
  ℕ, zero, suc, ◌+◌, ◌%◌, ◌<◌, ◌≡◌, ◌≢◌, ◌⊎◌, List, [], ◌∷◌, ◌++◌, length, take, drop, length-take,
  length-drop, arith,
}
use infrastructure_in_a_box.Prelude.Text.{Text}
use infrastructure_in_a_box.Tftp.Request.{ReadRequest, option_ack}
use infrastructure_in_a_box.Tftp.Requests.{IsServable}
use infrastructure_in_a_box.Tftp.Exchange.{Peer, exchange}
use infrastructure_in_a_box.Tftp.Confirmed.{Confirmed}
use infrastructure_in_a_box.Tftp.Transfer.{
  World, Opened, regular, out_of_fuel, data_packet, send_blocks, transfer_file, transfer_opened,
  transfer,
}

-- RFC 1350: the packets that carry a text in blocks of `size`, numbered from `round` on. Every
-- block but the last is full, and the last is not, so that the receiver sees the end.
pub data Delivers (size : ℕ) : ℕ → Text → List Text → Type 0 where
  last :
      (round : ℕ) (payload : Text)
      → length payload < size
      → Delivers size round payload (data_packet round payload ∷ [])
  block :
      (round : ℕ) (payload rest whole : Text) (packets : List Text)
      → length payload ≡ size
      → whole ≡ payload ++ rest
      → Delivers size (round + 1) rest packets
      → Delivers size round whole (data_packet round payload ∷ packets)

module _ (w : World) (peer : Peer) (size : ℕ) where
  -- The loop never runs out of fuel: each round but the last takes a byte at least.
  send_blocks-ends :
      (fuel round i : ℕ) (left : Text)
      → 0 < size
      → length left < fuel
      → (send_blocks w peer size fuel round i left).outcome ≢ out_of_fuel
  unfolding send_blocks
  send_blocks-ends zero round i left h f = absurd (omega arith)
  send_blocks-ends (suc fuel) round i left h f = ground (
    arith,
    send_blocks-ends fuel (round + 1)
        (exchange w.net i peer (data_packet round (take size left)) (round % 65536)).rest
        (drop size left) h,
    length-drop size left,
    length-take size left,
  )

-- The payloads of DATA packets, in order.
abbrev pub payloads : List Text → Text
payloads [] = []
payloads (p ∷ ps) = drop 4 p ++ payloads ps

-- The packets of a transfer were confirmed from its first attempt on: behind the acknowledgement of
-- the options, which counts as block 0, where the request has any.
abbrev pub AllConfirmed : World → Peer → ReadRequest → ℕ → List Text → Type 0
AllConfirmed w peer r size packets =
    ((r.options ≡ []) × Confirmed w.net peer 0 1 packets)
    ⊎ ((r.options ≢ []) × Confirmed w.net peer 0 0 (option_ack r size ∷ packets))

-- The packets carry the file, cut at its announced size, and were confirmed.
abbrev IsDelivered : World → Peer → ReadRequest → ℕ → Text → List Text → Type 0
IsDelivered w peer r size content packets =
    Delivers r.block_size 1 (take size content) packets × AllConfirmed w peer r size packets

transfer_file-ends :
    (w : World) (peer : Peer) (r : ReadRequest) (size : ℕ) (content : Text)
    → 0 < r.block_size
    → (transfer_file w peer r size content).outcome ≢ out_of_fuel
unfolding transfer_file
transfer_file-ends w peer r size content h = ground (
  arith,
  send_blocks-ends w peer r.block_size (length (take size content) + 1) 1 0 (take size content) h,
  send_blocks-ends w peer r.block_size (length (take size content) + 1) 1
      (exchange w.net 0 peer (option_ack r size) 0).rest (take size content) h,
)

-- The transfer of a servable request always ends: the loop over the blocks never runs out of fuel.
pub transfer-ends :
    (w : World) (peer : Peer) (r : ReadRequest)
    → IsServable r
    → (transfer w peer r).outcome ≢ out_of_fuel
unfolding transfer
transfer-ends w peer r v = go w.opened
  where
    go : (o : Opened) → (transfer_opened w peer r o).outcome ≢ out_of_fuel
    go (regular size content) =
        transfer_file-ends w peer r size content (omega (arith, v.block_low))
    go _ = λ e. cc

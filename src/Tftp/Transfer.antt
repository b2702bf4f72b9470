-- ===== src/Tftp/Transfer.antt =====
-- internal/tftpserver/transfer.go: transfer. Files come from the embedded file system, which is
-- the environment's, as is the network.
use infrastructure_in_a_box.Prelude.{
  ℕ, zero, suc, ◌+◌, ◌%◌, Bool, List, [], ◌∷◌, ◌++◌, none, some, if◌then◌else◌, ltb, ◌==◌, length,
  take, drop,
}
use infrastructure_in_a_box.Prelude.Text.{Text, bytes}
use infrastructure_in_a_box.Prelude.Numbers.{put_uint16}
use infrastructure_in_a_box.Tftp.Request.{ReadRequest, ProtocolError, error_of, option_ack, op_data}
use infrastructure_in_a_box.Tftp.Exchange.{Peer, Attempt, Failure, context_done, exchange}

-- What opening a file and asking for its size and kind comes to. A regular file has a size, which
-- was announced, and the bytes that reading it gives.
pub data Opened : Type 0 where
  not_found open_failed irregular : Opened
  regular : ℕ → Text → Opened

-- The environment of a transfer: the file, the attempts of all its exchanges, and for each round
-- of the loop whether the context is done and whether reading fails.
pub record World : Type 0 where
  pub opened : Opened
  pub net : ℕ → Attempt
  pub done : ℕ → Bool
  pub read_fails : ℕ → Bool

-- How a transfer ends. `out_of_fuel` is no outcome of the program's.
pub data Outcome : Type 0 where
  completed : Outcome
  refused : ProtocolError → Outcome
  broken : Failure → Outcome
  out_of_fuel : Outcome

-- The outcome, and the DATA packets that have been acknowledged.
pub record Transferred : Type 0 where
  pub outcome : Outcome
  pub packets : List Text

-- packet[:4+n], with the block number as a uint16, which wraps to zero.
abbrev pub data_packet : ℕ → Text → Text
data_packet round payload = put_uint16 op_data ++ (put_uint16 (round % 65536) ++ payload)

abbrev pub end_with : Outcome → Transferred
end_with outcome = record { outcome = outcome; packets = [] }

-- The rest of a transfer behind an acknowledged packet.
abbrev pub behind : Text → Transferred → Transferred
behind packet t = record t { packets = packet ∷ t.packets }

module _ (w : World) (peer : Peer) (size : ℕ) where
  -- The loop over the blocks: `round` counts them from one, `i` the attempts used so far, and the
  -- reader has the text `left`.
  unfoldable pub send_blocks : ℕ → ℕ → ℕ → Text → Transferred
  send_blocks zero round i left = end_with out_of_fuel
  send_blocks (suc fuel) round i left =
      let payload = take size left in
      let packet = data_packet round payload in
      let e = exchange w.net i peer packet (round % 65536) in
      let rest = send_blocks fuel (round + 1) e.rest (drop size left) in
      if w.done round
      then end_with (broken context_done)
      else if w.read_fails round
      then end_with (refused (error_of 0 (bytes "file read failed")))
      else (elim e.failure [
        | some f ↦ end_with (broken f)
        | none ↦
            if ltb (length payload) size
            then behind packet (end_with completed)
            else behind packet rest
      ])

-- A round for each byte, and the last.
abbrev pub send_all : World → Peer → ℕ → ℕ → Text → Transferred
send_all w peer size i content = send_blocks w peer size (length content + 1) 1 i content

-- From the acknowledgement of the options on.
unfoldable pub transfer_file : World → Peer → ReadRequest → ℕ → Text → Transferred
transfer_file w peer r size content =
    let limited = take size content in
    let oack = option_ack r size in
    let e = exchange w.net 0 peer oack 0 in
    if length oack == 0 then send_all w peer r.block_size 0 limited else (elim e.failure [
      | some f ↦ end_with (broken f)
      | none ↦ send_all w peer r.block_size e.rest limited
    ])

abbrev pub transfer_opened : World → Peer → ReadRequest → Opened → Transferred
transfer_opened w peer r not_found = end_with (refused (error_of 1 (bytes "file unavailable")))
transfer_opened w peer r open_failed = end_with (refused (error_of 2 (bytes "file unavailable")))
transfer_opened w peer r irregular =
    end_with (refused (error_of 2 (bytes "only regular files can be downloaded")))
transfer_opened w peer r (regular size content) = transfer_file w peer r size content

-- transfer. The error packet of a refusal goes to the peer.
unfoldable pub transfer : World → Peer → ReadRequest → Transferred
transfer w peer r = transfer_opened w peer r w.opened

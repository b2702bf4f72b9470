-- ===== src/Tftp/Exchange.antt =====
-- internal/tftpserver/transfer.go: exchange. The network and the context are the environment: for
-- each attempt it fixes what the calls on the connection return.
use infrastructure_in_a_box.Prelude.{
  ℕ, zero, suc, ◌+◌, Bool, ◌&&◌, not, List, [], ◌∷◌, ◌++◌, Option, none, some, if◌then◌else◌, leb,
  ◌==◌, length, take, drop, ℕ_discrete,
}
use infrastructure_in_a_box.Prelude.Text.{Text, bytes}
use infrastructure_in_a_box.Prelude.Numbers.{uint16_at}
use infrastructure_in_a_box.Lease.Address.{Addr, addr_discrete}
use infrastructure_in_a_box.Tftp.Request.{error_packet, op_error, op_ack, max_request_size}

-- netip.AddrPort.
pub record Peer : Type 0 where
  pub addr : Addr
  pub port : ℕ

unfoldable pub Peer-discrete : Discrete Peer
Peer-discrete = hlevel (addr_discrete, ℕ_discrete)

-- What one read returns: a datagram with its sender, a timeout or another error. `answered` tells
-- whether a write to that sender would succeed.
pub data Read : Type 0 where
  datagram : Peer → Text → Bool → Read
  deadline_passed read_failed : Read

-- One attempt: what ctx.Err, SetDeadline and the write return, and the reads up to the deadline.
pub record Attempt : Type 0 where
  pub cancelled : Bool
  pub deadline_set : Bool
  pub written : Bool
  pub reads : List Read

pub data Failure : Type 0 where
  context_done deadline_failed write_failed io_failed client_terminated no_acknowledgement : Failure

-- The end of the reads of one attempt.
pub data Waited : Type 0 where
  acknowledged timed_out : Waited
  gave_up : Failure → Waited

-- A datagram sent, and to whom.
pub record Sent : Type 0 where
  pub to : Peer
  pub packet : Text

abbrev pub unknown_transfer : Text
unfolding error_packet
unknown_transfer = error_packet 5 (bytes "unknown transfer ID")

-- The buffer holds one byte more than a request, and longer datagrams are cut.
abbrev pub received : Text → Text
received packet = take (max_request_size + 1) packet

-- if n == 4 and the opcode is ACK and the block is the one sent
abbrev pub is_acknowledgement : ℕ → Text → Bool
is_acknowledgement block r = length r == 4 && uint16_at r == op_ack && uint16_at (drop 2 r) == block

abbrev pub is_error : ℕ → Text → Bool
is_error least r = leb least (length r) && uint16_at r == op_error

-- Whether a stranger gets an ERROR: every datagram with an opcode does that is none itself.
abbrev pub deserves_error : Text → Bool
deserves_error r = leb 2 (length r) && not (uint16_at r == op_error)

-- The inner loop. A read that never comes back counts as one that times out.
unfoldable pub wait : Peer → ℕ → List Read → Waited × List Sent
wait peer block [] = (timed_out, [])
wait peer block (deadline_passed ∷ reads) = (timed_out, [])
wait peer block (read_failed ∷ reads) = (gave_up io_failed, [])
wait peer block (datagram sender bytes answered ∷ reads) =
    let r = received bytes in
    let rest = wait peer block reads in
    elim (Peer-discrete sender peer) [
      | no stranger ↦
          if deserves_error r
          then (if answered
              then (rest.0, record { to = sender; packet = unknown_transfer } ∷ rest.1)
              else (gave_up io_failed, []))
          else rest
      | yes same ↦
          if is_error 4 r
          then (gave_up client_terminated, [])
          else if is_acknowledgement block r
          then (acknowledged, [])
          else rest
    ]

-- How an exchange ends, what it sent, and the attempts that it leaves.
pub record Exchanged : Type 0 where
  pub failure : Option Failure
  pub sent : List Sent
  pub rest : ℕ

abbrev pub stop : Option Failure → List Sent → ℕ → Exchanged
stop failure sent i = record { failure = failure; sent = sent; rest = i }

abbrev pub prepend : List Sent → Exchanged → Exchanged
prepend sent e = record e { sent = sent ++ e.sent }

-- What stops an attempt before the packet is out.
abbrev pub fault : Attempt → Option Failure
fault a =
    if a.cancelled
    then some context_done
    else if not a.deadline_set
    then some deadline_failed
    else if not a.written
    then some write_failed
    else none

-- What the end of the reads means for the exchange: only a timeout leads to the next attempt.
abbrev pub conclude : Waited → List Sent → Exchanged → ℕ → Exchanged
conclude acknowledged sent again i = stop none sent i
conclude timed_out sent again i = prepend sent again
conclude (gave_up f) sent again i = stop (some f) sent i

-- The outer loop, from the attempt `i` of the environment, with the attempts that are left.
unfoldable pub attempts : ℕ → (ℕ → Attempt) → ℕ → Peer → Text → ℕ → Exchanged
attempts zero net i peer packet block = stop (some no_acknowledgement) [] i
attempts (suc left) net i peer packet block =
    let again = attempts left net (i + 1) peer packet block in
    let w = wait peer block (net i).reads in
    elim (fault (net i)) [
      | some f ↦ stop (some f) [] (i + 1)
      | none ↦ conclude w.0 (record { to = peer; packet = packet } ∷ w.1) again (i + 1)
    ]

abbrev pub max_attempts : ℕ
max_attempts = 5

-- exchange.
unfoldable pub exchange : (ℕ → Attempt) → ℕ → Peer → Text → ℕ → Exchanged
unfolding attempts
exchange net i peer packet block = attempts max_attempts net i peer packet block

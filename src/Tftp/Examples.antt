-- ===== src/Tftp/Examples.antt =====
-- Requests and transfers of the TFTP server, and concrete cases of its theorems.
use infrastructure_in_a_box.Prelude.{
  ℕ, ◌≡◌, ◌≢◌, refl, true, false, [], ◌∷◌, ◌++◌, drop, ℕ_discrete, arith,
}
use infrastructure_in_a_box.Prelude.Results.{ok}
use infrastructure_in_a_box.Prelude.Text.{Text, Unicode, bytes, split, to_lower, text_discrete}
use infrastructure_in_a_box.Prelude.Numbers.{parse_uint, itoa, uint16_at}
use infrastructure_in_a_box.Prelude.Table.{get, put, erase}
use infrastructure_in_a_box.Lease.Address.{v4, addr_discrete}
use infrastructure_in_a_box.Lease.State.{utf8_from}
use infrastructure_in_a_box.Tftp.Request.{
  ReadRequest, parse_request, parse_fields, parse_options, set_option, set_block_size,
  set_transfer_size, option_ack, option_fields, valid_path,
}
use infrastructure_in_a_box.Tftp.Requests.{IsServable, parse_request-IsServable}
use infrastructure_in_a_box.Tftp.Acknowledgement.{AllAnswered, option_ack-AllAnswered}
use infrastructure_in_a_box.Tftp.Exchange.{
  Peer, Peer-discrete, datagram, Attempt, wait, attempts, exchange,
}
use infrastructure_in_a_box.Tftp.Exchanges.{IsDelivery, own, exchange-IsDelivery, wait-own}
use infrastructure_in_a_box.Tftp.Transfer.{
  World, regular, out_of_fuel, transfer, transfer_file, send_blocks,
}
use infrastructure_in_a_box.Tftp.Delivery.{transfer-ends}
use infrastructure_in_a_box.Tftp.Admission.{
  idle, serve, begin, admit, nothing, arrives, ends, finish,
}
use infrastructure_in_a_box.Tftp.Limits.{IsLimited, Reach-IsLimited}

-- Tables that change nothing: the option names below are ASCII.
abbrev plain : Unicode
plain = record { lower = λ s. s; trim = λ s. s }

program : Unit {0}
unfolding parse_request parse_fields parse_options set_option set_block_size set_transfer_size
    valid_path to_lower split parse_uint itoa option_ack option_fields wait attempts exchange
    transfer transfer_file send_blocks serve begin admit finish get put erase uint16_at utf8_from
    text_discrete addr_discrete Peer-discrete ℕ_discrete
program = tt

-- A read request for `boot`, in blocks of eight bytes.
abbrev packet : Text
packet =
    (0 ∷ 1 ∷ bytes "boot")
    ++ (0 ∷ (bytes "octet" ++ (0 ∷ (bytes "blksize" ++ (0 ∷ (bytes "8" ++ (0 ∷ [])))))))

abbrev request : ReadRequest
request = record {
  filename = bytes "boot";
  block_size = 8;
  timeout = 3;
  options = (bytes "blksize", bytes "8") ∷ [];
}

parsed : parse_request plain packet ≡ ok request
unfolding program
parsed = refl

parse_request-IsServable_example : IsServable request
parse_request-IsServable_example = parse_request-IsServable plain packet request parsed

option_ack-AllAnswered_example :
    (uint16_at (option_ack request 10) ≡ 6)
    × AllAnswered request 10 request.options (split 0 (drop 2 (option_ack request 10)))
unfolding program
option_ack-AllAnswered_example =
    option_ack-AllAnswered request 10 (omega arith) plain packet parsed (λ e. cc)

abbrev client : Peer
client = record { addr = v4 7; port = 2000 }

abbrev stranger : Peer
stranger = record { addr = v4 8; port = 2000 }

-- Attempt `i` is answered with the acknowledgement of block `i`.
abbrev net : ℕ → Attempt
net i = record {
  cancelled = false;
  deadline_set = true;
  written = true;
  reads =
      datagram stranger (0 ∷ 4 ∷ 0 ∷ i ∷ []) true ∷ datagram client (0 ∷ 4 ∷ 0 ∷ i ∷ []) true ∷ [];
}

abbrev world : World
world = record {
  opened = regular 10 (bytes "0123456789");
  net = net;
  done = λ i. false;
  read_fails = λ i. false;
}

exchange-IsDelivery_example : IsDelivery 5 net 3 client packet 3 (exchange net 3 client packet 3)
unfolding program
exchange-IsDelivery_example = exchange-IsDelivery net 3 client packet 3 refl

wait-own_example : (wait client 3 (net 3).reads).0 ≡ (wait client 3 (own client (net 3).reads)).0
wait-own_example = wait-own client 3 (net 3).reads (refl, (refl, tt))

transfer-ends_example : (transfer world client request).outcome ≢ out_of_fuel
transfer-ends_example = transfer-ends world client request parse_request-IsServable_example

Reach-IsLimited_example : IsLimited (finish (serve plain idle client packet).0 client)
unfolding program
Reach-IsLimited_example =
    Reach-IsLimited {u = plain}
      (ends (serve plain idle client packet).0 client refl (arrives idle client packet nothing))

-- ===== src/Rtp/Tests.antt =====
-- Runs of the transport at small messages, and the theorems at concrete channels.
use da_bus.Base.{ℕ, ◌≡◌, refl, none, some, List, [], ◌∷◌, arith, take, replicate, inl}
use da_bus.Rtp.{
  Packet, sent, rtp_send_message, rtp_receive_message, Buffer, received, respond, packetize,
  packetize_loop, put_byte, finish_packet, checksum, checksum_loop, rounds, char_to_int,
  packet_count, send_packets, receive_loop, receive_turn, receive_packet, accept_packet,
  copy_payload, append_byte, write_byte, resize_buffer, await_response, crashed,
}
use da_bus.Rtp.Buffers.{content}
use da_bus.Rtp.Packets.{segments}
use da_bus.Rtp.Split.{packetize-segments}
use da_bus.Rtp.Delivery.{received_form, IsStream, deliver}
use da_bus.Rtp.Channel.{
  Trip, IsDamaged, AllTrips, packets, arrive, arrivals, answers, transmissions,
  send_packets-transmissions,
}
use da_bus.Rtp.Transfer.{message_transfer, packetize-IsStream}
use da_bus.Rtp.Safety.{IsSafe, rtp_receive_message-IsSafe}

program : Unit {0}
unfolding packetize packetize_loop put_byte finish_packet checksum checksum_loop rounds char_to_int
    packet_count rtp_receive_message receive_loop receive_turn receive_packet accept_packet
    copy_payload append_byte write_byte resize_buffer rtp_send_message send_packets await_response
program = tt

-- "Hello, DaBUS", in two packets.
abbrev message : List ℕ
message = 72 ∷ 101 ∷ 108 ∷ 108 ∷ 111 ∷ 44 ∷ 32 ∷ 68 ∷ 97 ∷ 66 ∷ 85 ∷ 83 ∷ []

abbrev first : Packet
first = record { type = 0; checksum = 807; payload_length = 10; payload = take 10 message }

abbrev second : Packet
second = record { type = 1; checksum = 168; payload_length = 3; payload = 85 ∷ 83 ∷ replicate 8 0 }

abbrev bad : Packet
bad = record first { checksum = 820 }

packetize_small : packetize message ≡ some (first ∷ second ∷ [])
unfolding program
packetize_small = refl

-- A packet that claims 11 bytes makes the receiver read behind its payload.
crash_small : rtp_receive_message (some (record first { payload_length = 11 }) ∷ []) ≡ crashed
unfolding program
crash_small = refl

-- The first packet arrives damaged twice.
abbrev trips : List Trip
trips =
    record { damaged = bad ∷ bad ∷ []; packet = first }
    ∷ record { damaged = []; packet = second }
    ∷ []

bad-IsDamaged : IsDamaged bad
unfolding program
bad-IsDamaged = record { typed = inl refl; found = 807; computed = refl; wrong = omega arith }

trips-AllTrips : AllTrips trips
trips-AllTrips = ((bad-IsDamaged, (bad-IsDamaged, tt)), (tt, tt))

message_transfer_example :
    (rtp_send_message message (arrive (answers trips) []) ≡ some (transmissions trips (sent [])))
    × ((b : Buffer) × (rtp_receive_message (arrivals trips [])
          ≡ respond (answers trips) (received b []))
        × (content b ≡ received_form message))
message_transfer_example =
    message_transfer message trips [] [] (omega arith) (omega arith) packetize_small trips-AllTrips

packetize-segments_example : packetize message ≡ some (segments [] message)
packetize-segments_example = packetize-segments message

packetize-IsStream_example :
    (ps : List Packet) × (packetize message ≡ some ps)
    × IsStream ps
    × (deliver ps ≡ received_form message)
packetize-IsStream_example = packetize-IsStream message (omega arith)

send_packets-transmissions_example :
    send_packets (packets trips) (arrive (answers trips) []) ≡ transmissions trips (sent [])
send_packets-transmissions_example = send_packets-transmissions trips []

rtp_receive_message-IsSafe_example :
    IsSafe (rtp_receive_message (some bad ∷ none ∷ some first ∷ []))
unfolding rounds
rtp_receive_message-IsSafe_example =
    rtp_receive_message-IsSafe (some bad ∷ none ∷ some first ∷ [])
      ((refl, omega arith), (tt, ((refl, omega arith), tt))) (omega arith)

-- ===== src/Rtp.antt =====
-- The reliable transport of project-7/prj7/rtp.c and rtp.h: packets, the stop-and-wait sender and
-- the receiver with its growing buffer. An int is its 32-bit pattern and a char its byte; the UDP
-- socket is the list of what `recvfrom` returns, `none` for -1.
mod Bytes
mod Packets
mod Split
mod Delivery
mod Buffers
mod Channel
mod Transfer
mod Safety
mod Tests
use da_bus.Base.{
  ◌&&◌, ℕ, zero, suc, ◌+◌, ◌-◌, ◌*◌, ◌/◌, ◌%◌, ◌^◌, Bool, true, false, ◌||◌, Option, none, some,
  List, [], ◌∷◌, ◌++◌, ltb, ◌==◌, if◌then◌else◌, length, get_elem?, get_or, set, take, replicate,
}

abbrev pub max_payload_length : ℕ
max_payload_length = 10

-- The packet types DATA, LAST_DATA, ACK, NACK and TERM.
abbrev pub data_type : ℕ
data_type = 0

abbrev pub last_data : ℕ
last_data = 1

abbrev pub ack : ℕ
ack = 2

abbrev pub nack : ℕ
nack = 3

abbrev pub term : ℕ
term = 4

pub record Packet : Type 0 where
  pub type : ℕ
  pub checksum : ℕ
  pub payload_length : ℕ
  pub payload : List ℕ

-- What `calloc` gives.
abbrev pub zero_packet : Packet
zero_packet = record {
  type = 0;
  checksum = 0;
  payload_length = 0;
  payload = replicate max_payload_length 0;
}

-- The value of a signed char as an int.
pub char_to_int : ℕ → ℕ
char_to_int b = if ltb b 128 then b else b + (2 ^ 32 - 256)

-- The rounds of `for (i = 0; i < n; i++)` with an int `n`.
pub rounds : ℕ → ℕ
rounds n = if ltb n (2 ^ 31) then n else 0

-- `none` is a read outside the buffer.
pub checksum_loop : List ℕ → ℕ → ℕ → Option ℕ
checksum_loop buffer zero tally = some tally
checksum_loop [] (suc n) tally = none
checksum_loop (b ∷ buffer) (suc n) tally = checksum_loop buffer n ((tally + char_to_int b) % 2 ^ 32)

pub checksum : List ℕ → ℕ → Option ℕ
checksum buffer length = checksum_loop buffer (rounds length) 0

-- The housekeeping of `packetize` at the end of a packet.
pub finish_packet : ℕ → ℕ → Packet → Option Packet
finish_packet type length p = elim (checksum p.payload length) [
  | none ↦ none
  | some c ↦ some (record p { type = type; payload_length = length; checksum = c })
]

-- One round of the loop of `packetize`, at position `i` of a message of `length` bytes.
pub put_byte : ℕ → ℕ → ℕ → Packet → Option Packet
put_byte length i b p =
    let p' = record p { payload = set p.payload (i % max_payload_length) b } in
    let full = finish_packet data_type max_payload_length p' in
    let filled : Option Packet =
      if i % max_payload_length == max_payload_length - 1 then full else some p' in
    elim filled [
      | none ↦ none
      | some q ↦
          if i == length - 1
          then finish_packet last_data (length % max_payload_length + 1) q
          else some q
    ]

pub packetize_loop : ℕ → List ℕ → ℕ → List Packet → Option (List Packet)
packetize_loop length [] i packets = some packets
packetize_loop length (b ∷ buffer) i packets =
    let k = i / max_payload_length in
    elim (put_byte length i b (get_or packets k zero_packet)) [
      | none ↦ none
      | some p ↦ packetize_loop length buffer (i + 1) (set packets k p)
    ]

-- `*count`.
pub packet_count : ℕ → ℕ
packet_count length =
    let n = length / max_payload_length in if ltb 0 (length % max_payload_length) then n + 1 else n

-- The message is the buffer of exactly `length` bytes.
pub packetize : List ℕ → Option (List Packet)
packetize buffer =
    let n = length buffer in packetize_loop n buffer 0 (replicate (packet_count n) zero_packet)

-- What a sender has put on the wire, and whether it has got through or waits for a response.
pub data Sending : Type 0 where
  sent : List (Option Packet) → Sending
  waiting : Sending
  sends : Packet → Sending → Sending

-- The two inner loops of `rtp_send_message` and the step to the next packet: `p` is out, `ps` are
-- to follow, and the list holds what `recvfrom` will return.
pub await_response : Packet → List Packet → List (Option Packet) → Sending
await_response p ps [] = waiting
await_response p ps (none ∷ env) = await_response p ps env
await_response p ps (some r ∷ env) = elim (r.type == nack) [
  | true ↦ sends p (await_response p ps env)
  | false ↦ elim ps [ [] ↦ sent env | q ∷ qs ↦ sends q (await_response q qs env) ]
]

pub send_packets : List Packet → List (Option Packet) → Sending
send_packets [] env = sent env
send_packets (p ∷ ps) env = sends p (await_response p ps env)

pub rtp_send_message : List ℕ → List (Option Packet) → Option Sending
rtp_send_message buffer env = elim (packetize buffer) [
  | none ↦ none
  | some ps ↦ some (send_packets ps env)
]

-- The message buffer: its bytes, `msg->length` and `buff_capacity`.
pub record Buffer : Type 0 where
  pub bytes : List ℕ
  pub length : ℕ
  pub capacity : ℕ

-- `none` is an int that overflows: the doubled capacity has to be below 2 ^ 31.
pub resize_buffer : Buffer → Option Buffer
resize_buffer b =
    if ltb (2 * b.capacity) (2 ^ 31)
    then some (record b {
      bytes = take b.capacity b.bytes ++ replicate b.capacity 0;
      capacity = 2 * b.capacity;
    })
    else none

-- `msg->buffer[msg->length] = x; msg->length++`; `none` is a write outside the buffer, or an int that
-- overflows.
pub write_byte : ℕ → Buffer → Option Buffer
write_byte x b =
    if ltb b.length (length b.bytes) && ltb (b.length + 1) (2 ^ 31)
    then some (record b { bytes = set b.bytes b.length x; length = b.length + 1 })
    else none

pub append_byte : ℕ → Buffer → Option Buffer
append_byte x b = elim (if b.length == b.capacity then resize_buffer b else some b) [
  | none ↦ none
  | some b' ↦ write_byte x b'
]

pub copy_payload : List ℕ → ℕ → Buffer → Option Buffer
copy_payload payload zero b = some b
copy_payload [] (suc n) b = none
copy_payload (x ∷ payload) (suc n) b = elim (append_byte x b) [
  | none ↦ none
  | some b' ↦ copy_payload payload n b'
]

abbrev pub build_ack : Packet
build_ack = record zero_packet { type = ack }

abbrev pub build_nack : Packet
build_nack = record zero_packet { type = nack }

abbrev pub empty_buffer : Buffer
empty_buffer = record {
  bytes = replicate max_payload_length 0;
  length = 0;
  capacity = max_payload_length;
}

-- One round of the loop of `rtp_receive_message`: what it sends, and how it goes on.
pub data Turn : Type 0 where
  fault : Turn
  return : Packet → Buffer → Turn
  again : List Packet → Buffer → Turn

pub accept_packet : Packet → Buffer → Turn
accept_packet p b = elim (copy_payload p.payload (rounds p.payload_length) b) [
  | none ↦ fault
  | some b' ↦ if p.type == last_data then return build_ack b' else again (build_ack ∷ []) b'
]

pub receive_packet : Packet → Buffer → Turn
receive_packet p b =
    let checked : Turn = elim (checksum p.payload p.payload_length) [
      | none ↦ fault
      | some c ↦ if p.checksum == c then accept_packet p b else again (build_nack ∷ []) b
    ] in
    if (p.type == data_type) || (p.type == last_data) then checked else again [] b

pub receive_turn : Option Packet → Buffer → Turn
receive_turn none b = again [] b
receive_turn (some p) b = receive_packet p b

-- A receiver that has returned its message, that faults, or that waits for more.
pub data Receiving : Type 0 where
  received : Buffer → List (Option Packet) → Receiving
  crashed : Receiving
  listening : Buffer → Receiving
  responds : Packet → Receiving → Receiving

abbrev pub respond : List Packet → Receiving → Receiving
respond [] r = r
respond (p ∷ ps) r = responds p (respond ps r)

pub receive_loop : List (Option Packet) → Buffer → Receiving
receive_loop [] b = listening b
receive_loop (r ∷ env) b = elim (receive_turn r b) [
  | fault ↦ crashed
  | return p b' ↦ responds p (received b' env)
  | again ps b' ↦ respond ps (receive_loop env b')
]

pub rtp_receive_message : List (Option Packet) → Receiving
rtp_receive_message env = receive_loop env empty_buffer

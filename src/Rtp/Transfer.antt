-- ===== src/Rtp/Transfer.antt =====
-- The sender and the receiver of project-7/prj7/rtp.c together: a message that crosses a channel
-- which damages packets.
use mathlib.Core.List.{append_assoc, append-nil}
use mathlib.Core.Option.{some_inj}
use da_bus.Base.{
  ℕ, ◌<◌, ◌≡◌, refl, sym, ap, ◌∙◌, Option, some, List, [], ◌∷◌, ◌++◌, arith, length, ◌==◌, take,
  ◌^◌, ltb, inl, inr, true, false, ◌+◌, ◌-◌, ◌%◌, ◌≤◌, length-append, length-take, Bool-cases,
}
use da_bus.Rtp.{
  Packet, sent, rtp_send_message, build_ack, build_nack, Buffer, Turn, return, again,
  receive_packet, receive_turn, accept_packet, Receiving, received, responds, receive_loop, respond,
  rtp_receive_message, copy_payload, data_type, last_data, rounds, packetize, empty_buffer,
}
use da_bus.Rtp.Buffers.{
  IsBuffer, content, length-content, Extends, copy_payload-Extends, empty_buffer-IsBuffer,
}
use da_bus.Rtp.Delivery.{
  IsSealed, IsStream, deliver, received_form, segments-IsStream, deliver-segments,
}
use da_bus.Rtp.Packets.{segments}
use da_bus.Rtp.Split.{packetize-segments}
use da_bus.Rtp.Channel.{
  Trip, IsDamaged, AllDamaged, AllTrips, packets, arrive, arrivals, nacks, answers, transmissions,
  send_packets-transmissions,
}

-- A damaged packet is answered with a NACK and leaves the message alone.
receive_packet-IsDamaged :
    (p : Packet) (b : Buffer) → IsDamaged p → receive_packet p b ≡ again (build_nack ∷ []) b
unfolding receive_packet
receive_packet-IsDamaged p b d =
    let no : (p.checksum == d.found) ≡ false = ground (arith, d.wrong) in
    elim d.typed [
      | inl e ↦ rw (receive_packet, e, d.computed, no) refl
      | inr e ↦ rw (receive_packet, e, d.computed, no) refl
    ]

-- A good packet is taken into the buffer and acknowledged.
Takes : Packet → Buffer → (Buffer → Turn) → Type 0
Takes p b turn =
    (b' : Buffer) × (receive_packet p b ≡ turn b')
    × IsBuffer b'
    × (content b' ≡ content b ++ take p.payload_length p.payload)

module _ {p : Packet} {b : Buffer} (v : IsBuffer b)
    (low : b.length + p.payload_length ≤ 2 ^ 30) where
  copied :
      (type : ℕ)
      → IsSealed type p
      → Extends b
          (take p.payload_length p.payload)
          (copy_payload p.payload (rounds p.payload_length) b)
  unfolding rounds
  copied type h =
      let in_range : ltb p.payload_length (2 ^ 31) ≡ true = ground (arith, h.within) in
      rw in_range
        (copy_payload-Extends p.payload_length p.payload v (omega (arith, h.within, h.sized)) low)

  same : (type : ℕ) → IsSealed type p → (p.checksum == p.checksum) ≡ true
  same type h = ground arith

  receive_packet-data : IsSealed data_type p → Takes p b (again (build_ack ∷ []))
  unfolding Takes receive_packet accept_packet
  receive_packet-data h =
      let (b', e, w, c) = copied data_type h in
      (
        b',
        rw (receive_packet, h.typed, h.right, same data_type h, accept_packet, e, h.typed) refl,
        w,
        c,
      )

  receive_packet-last : IsSealed last_data p → Takes p b (return build_ack)
  unfolding Takes receive_packet accept_packet
  receive_packet-last h =
      let (b', e, w, c) = copied last_data h in
      (
        b',
        rw (receive_packet, h.typed, h.right, same last_data h, accept_packet, e, h.typed) refl,
        w,
        c,
      )

receive_loop-nacks :
    (ds rest : List Packet) (env : List (Option Packet)) (b : Buffer) (r : Receiving)
    → AllDamaged ds
    → receive_loop env b ≡ respond rest r
    → receive_loop (arrive ds env) b ≡ respond (nacks ds rest) r
unfolding receive_loop receive_turn
receive_loop-nacks [] rest env b r h e = e
receive_loop-nacks (d ∷ ds) rest env b r (h, k) e =
    rw (receive_loop, receive_packet-IsDamaged d b h)
      (ap (responds build_nack) (receive_loop-nacks ds rest env b r k e))

-- What the receiver has done when it returns a message.
abbrev pub Returns : List Trip → List (Option Packet) → Buffer → Type 0
Returns ts env b =
    (b' : Buffer) × (receive_loop (arrivals ts env) b ≡ respond (answers ts) (received b' env))
    × IsBuffer b'
    × (content b' ≡ content b ++ deliver (packets ts))

length-deliver :
    {type : ℕ} (p : Packet) (ps : List Packet)
    → IsSealed type p
    → length (deliver (p ∷ ps)) ≡ p.payload_length + length (deliver ps)
length-deliver p ps h = omega (
  arith,
  length-append (take p.payload_length p.payload) (deliver ps),
  length-take p.payload_length p.payload,
  h.sized,
  h.within,
)

-- Whatever is damaged on the way, the receiver answers every packet, never leaves its buffer, and
-- returns what the good packets deliver, behind what it had, while these are at most 2 ^ 30 bytes.
pub receive_loop-Returns :
    (ts : List Trip) (env : List (Option Packet)) (b : Buffer)
    → IsBuffer b
    → IsStream (packets ts)
    → AllTrips ts
    → b.length + length (deliver (packets ts)) ≤ 2 ^ 30
    → Returns ts env b
unfolding receive_loop receive_turn Takes
receive_loop-Returns [] env b v h k low = absurd h
receive_loop-Returns (t ∷ []) env b v h (k, _) low =
    let n = length-deliver t.packet [] h in
    let (b', e, w, c) = receive_packet-last v (omega (arith, n, low)) h in
    (
      b',
      receive_loop-nacks t.damaged (build_ack ∷ []) (some t.packet ∷ env) b (received b' env) k
          (rw (receive_loop, e) refl),
      w,
      c ∙ ap (◌++◌ (content b)) (sym (append-nil (take t.packet.payload_length t.packet.payload))),
    )
receive_loop-Returns (t ∷ u ∷ ts) env b v (h, hs) (k, ks) low =
    let n = length-deliver t.packet (packets (u ∷ ts)) h in
    let (b1, e, w, c) = receive_packet-data v (omega (arith, n, low)) h in
    let m : b1.length ≡ b.length + t.packet.payload_length = omega (
      arith,
      sym (length-content w) ∙ ap length c,
      length-append (content b) (take t.packet.payload_length t.packet.payload),
      length-take t.packet.payload_length t.packet.payload,
      length-content v,
      h.sized,
      h.within,
    ) in
    let (b2, f, x, d) = receive_loop-Returns (u ∷ ts) env b1 w hs ks (omega (arith, n, m, low)) in
    (
      b2,
      receive_loop-nacks t.damaged (build_ack ∷ answers (u ∷ ts))
          (some t.packet ∷ arrivals (u ∷ ts) env) b (received b2 env) k
          (rw (receive_loop, e) (ap (responds build_ack) f)),
      x,
      d
          ∙ rw c (
              append_assoc (content b) (take t.packet.payload_length t.packet.payload)
                (deliver (packets (u ∷ ts)))),
    )

-- For every message that is not empty `packetize` returns packets which are all DATA but the last,
-- LAST_DATA, with lengths within the payload and right checksums, and which carry the message in the
-- form that `received_form` describes.
pub packetize-IsStream :
    (buffer : List ℕ)
    → 0 < length buffer
    → (ps : List Packet) × (packetize buffer ≡ some ps)
      × IsStream ps
      × (deliver ps ≡ received_form buffer)
packetize-IsStream [] h = absurd (omega arith)
packetize-IsStream (x ∷ xs) h = (
  segments [] (x ∷ xs),
  packetize-segments (x ∷ xs),
  segments-IsStream [] x xs (omega arith),
  deliver-segments [] x xs (omega arith),
)

length-received_form : (xs : List ℕ) → length (received_form xs) ≤ length xs + 1
unfolding received_form
length-received_form xs = elim (Bool-cases (length xs % 10 == 0)) [
  | inl e ↦ rw e (omega (arith, length-take (length xs - 9) xs))
  | inr e ↦ rw e (omega (arith, length-append xs (0 ∷ [])))
]

-- A message that is not empty and shorter than 2 ^ 30 bytes crosses any channel that damages transmissions, each packet getting
-- through in the end: the sender cuts it up, sends each packet until it gets through, and finishes;
-- the receiver gives exactly the answers that the sender has got, and returns the message in the
-- form that `received_form` describes.
pub message_transfer :
    (buffer : List ℕ) (ts : List Trip) (env env' : List (Option Packet))
    → 0 < length buffer
    → length buffer < 2 ^ 30
    → packetize buffer ≡ some (packets ts)
    → AllTrips ts
    → (rtp_send_message buffer (arrive (answers ts) env) ≡ some (transmissions ts (sent env)))
      × ((b : Buffer) × (rtp_receive_message (arrivals ts env')
            ≡ respond (answers ts) (received b env'))
          × (content b ≡ received_form buffer))
unfolding rtp_send_message rtp_receive_message content
message_transfer [] ts env env' h low e k = absurd (omega arith)
message_transfer (x ∷ xs) ts env env' h low e k =
    let same : segments [] (x ∷ xs) ≡ packets ts =
      some_inj.0 (sym (packetize-segments (x ∷ xs)) ∙ e) in
    let all = deliver-segments [] x xs (omega arith) in
    let stream = segments-IsStream [] x xs (omega arith) in
    let (b, f, w, c) =
      receive_loop-Returns ts env' empty_buffer empty_buffer-IsBuffer (rw (← same) stream) k (
        omega (
          arith,
          ap (λ ps. length (deliver ps)) (sym same),
          ap length all,
          length-received_form (x ∷ xs),
          low,
        )) in
    (
      rw (rtp_send_message, e) (ap some (send_packets-transmissions ts env)),
      (b, f, c ∙ rw (← same) all),
    )

-- ===== src/Rtp/Safety.antt =====
-- The memory that the receiver of project-7/prj7/rtp.c touches, whatever packets arrive.
use da_bus.Base.{
  ℕ, ◌≤◌, ◌≡◌, refl, Option, none, some, List, [], ◌∷◌, arith, length, ◌==◌, ◌||◌, Bool-cases, inl,
  inr, zero, suc, ◌+◌, ◌^◌, sym, ap, ◌∙◌, take, length-append, length-take,
}
use da_bus.Rtp.{
  Packet, Buffer, Turn, fault, return, again, receive_packet, receive_turn, accept_packet,
  Receiving, received, crashed, listening, responds, receive_loop, respond, rtp_receive_message,
  checksum, rounds, data_type, last_data, checksum_loop,
}
use da_bus.Rtp.Buffers.{
  IsBuffer, content, length-content, copy_payload-Extends, empty_buffer-IsBuffer,
}

-- A packet that as a C object has 10 bytes of payload, and claims no more than these.
abbrev pub IsInRange : Option Packet → Type 0
IsInRange none = Unit
IsInRange (some p) = (length p.payload ≡ 10) × (rounds p.payload_length ≤ 10)

abbrev pub AllInRange : List (Option Packet) → Type 0
AllInRange [] = Unit
AllInRange (r ∷ env) = IsInRange r × AllInRange env

-- The bytes of payload that the packets claim.
abbrev pub claimed : List (Option Packet) → ℕ
claimed [] = 0
claimed (none ∷ env) = claimed env
claimed (some p ∷ env) = rounds p.payload_length + claimed env

abbrev pub IsSafe : Receiving → Type 0
IsSafe (received b env) = Unit
IsSafe crashed = ⊥
IsSafe (listening b) = Unit
IsSafe (responds p r) = IsSafe r

-- The turn leaves a buffer with at most that many bytes of message.
abbrev IsSafeTurn : ℕ → Turn → Type 0
IsSafeTurn n fault = ⊥
IsSafeTurn n (return p b) = IsBuffer b × (b.length ≤ n)
IsSafeTurn n (again ps b) = IsBuffer b × (b.length ≤ n)

checksum_loop-IsSome :
    (buffer : List ℕ) (n tally : ℕ)
    → n ≤ length buffer
    → (c : ℕ) × (checksum_loop buffer n tally ≡ some c)
unfolding checksum_loop
checksum_loop-IsSome buffer zero tally h = (tally, refl)
checksum_loop-IsSome [] (suc n) tally h = absurd (omega arith)
checksum_loop-IsSome (b ∷ buffer) (suc n) tally h = checksum_loop-IsSome buffer n _ (omega arith)

accept_packet-IsSafeTurn :
    (p : Packet) {b : Buffer}
    → IsBuffer b
    → IsInRange (some p)
    → b.length + rounds p.payload_length ≤ 2 ^ 30
    → IsSafeTurn (b.length + rounds p.payload_length) (accept_packet p b)
unfolding accept_packet
accept_packet-IsSafeTurn p {b} v (h, k) low =
    let n = rounds p.payload_length in
    let (b', e, w, c) = copy_payload-Extends n p.payload v (omega (arith, h, k)) low in
    let short : b'.length ≤ b.length + n = omega (
      arith,
      sym (length-content w) ∙ ap length c,
      length-append (content b) (take n p.payload),
      length-take n p.payload,
      length-content v,
    ) in
    elim (Bool-cases (p.type == last_data)) [
      | inl l ↦ rw (accept_packet, e, l) (w, short)
      | inr l ↦ rw (accept_packet, e, l) (w, short)
    ]

receive_turn-IsSafeTurn :
    (r : Option Packet) {b : Buffer}
    → IsBuffer b
    → IsInRange r
    → b.length + claimed (r ∷ []) ≤ 2 ^ 30
    → IsSafeTurn (b.length + claimed (r ∷ [])) (receive_turn r b)
unfolding receive_turn receive_packet checksum
receive_turn-IsSafeTurn none v h low = (v, omega arith)
receive_turn-IsSafeTurn (some p) {b} v (h, k) low =
    let stays : b.length ≤ b.length + (rounds p.payload_length + 0) = omega arith in
    let same : rounds p.payload_length + 0 ≡ rounds p.payload_length = omega arith in
    let (c, e) = checksum_loop-IsSome p.payload (rounds p.payload_length) 0 (omega (arith, h, k)) in
    elim (Bool-cases ((p.type == data_type) || (p.type == last_data))) [
      | inl t ↦ elim (Bool-cases (p.checksum == c)) [
        | inl s ↦
            rw (receive_packet, t, checksum, e, s)
              (rw same (accept_packet-IsSafeTurn p v (h, k) (omega (arith, low))))
        | inr s ↦ rw (receive_packet, t, checksum, e, s) (v, stays)
      ]
      | inr t ↦ rw (receive_packet, t) (v, stays)
    ]

respond-IsSafe : (ps : List Packet) (r : Receiving) → IsSafe r → IsSafe (respond ps r)
respond-IsSafe [] r h = h
respond-IsSafe (p ∷ ps) r h = respond-IsSafe ps r h

claimed_cons :
    (r : Option Packet) (env : List (Option Packet))
    → claimed (r ∷ env) ≡ claimed (r ∷ []) + claimed env
claimed_cons none env = omega arith
claimed_cons (some p) env = omega arith

receive_loop-IsSafe :
    (env : List (Option Packet)) {b : Buffer}
    → IsBuffer b
    → AllInRange env
    → b.length + claimed env ≤ 2 ^ 30
    → IsSafe (receive_loop env b)
unfolding receive_loop
receive_loop-IsSafe [] v h low = tt
receive_loop-IsSafe (r ∷ env) {b} v (h, k) low =
    let split = claimed_cons r env in
    go (receive_turn r b) (receive_turn-IsSafeTurn r v h (omega (arith, low, split)))
      (λ b' w l. receive_loop-IsSafe env {b = b'} w k (omega (arith, low, split, l)))
  where
    go :
        (t : Turn)
        → IsSafeTurn (b.length + claimed (r ∷ [])) t
        → ((b' : Buffer)
            → IsBuffer b'
            → b'.length ≤ b.length + claimed (r ∷ [])
            → IsSafe (receive_loop env b'))
        → IsSafe (elim t [
          | fault ↦ crashed
          | return p b' ↦ responds p (received b' env)
          | again ps b' ↦ respond ps (receive_loop env b')
        ])
    go fault h f = absurd h
    go (return p b') h f = tt
    go (again ps b') h f = respond-IsSafe ps (receive_loop env b') (f b' h.0 h.1)

-- The receiver never reads or writes outside its buffers, and no int overflows, whatever types,
-- checksums and contents arrive, as long as no packet claims more than 10 bytes of payload and the
-- packets claim at most 2 ^ 30 bytes together.
pub rtp_receive_message-IsSafe :
    (env : List (Option Packet))
    → AllInRange env
    → claimed env ≤ 2 ^ 30
    → IsSafe (rtp_receive_message env)
unfolding rtp_receive_message
rtp_receive_message-IsSafe env h low =
    receive_loop-IsSafe env empty_buffer-IsBuffer h (omega (arith, low))

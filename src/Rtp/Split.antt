-- ===== src/Rtp/Split.antt =====
-- The loop of `packetize` of project-7/prj7/rtp.c over the whole message.
use mathlib.Core.List.{append_assoc}
use da_bus.Base.{
  ℕ, zero, suc, ◌+◌, ◌-◌, ◌*◌, ◌/◌, ◌%◌, ◌≤◌, ◌<◌, ◌≡◌, refl, sym, ap, ◌∙◌, some, List, [], ◌∷◌,
  ◌++◌, arith, length, replicate, length-append, ltb, ◌==◌, Bool-cases, inl, inr, true, false,
  ==_iff, ne_of_==, ltb→lt,
}
use da_bus.Rtp.{
  Packet, zero_packet, put_byte, packetize_loop, packet_count, packetize, last_data, data_type,
}
use da_bus.Rtp.Bytes.{get_or-append, set-append}
use da_bus.Rtp.Packets.{segments, partial, seal, pad, put_byte-last, put_byte-more, put_byte-full}

packetize_loop_step :
    (l i b : ℕ) (bs : List ℕ) (done todo : List Packet) (p q : Packet)
    → i / 10 ≡ length done
    → put_byte l i b p ≡ some q
    → packetize_loop l (b ∷ bs) i (done ++ p ∷ todo)
      ≡ packetize_loop l bs (i + 1) (done ++ q ∷ todo)
unfolding packetize_loop
packetize_loop_step l i b bs done todo p q at e =
    rw (packetize_loop, at, get_or-append done p todo zero_packet, e, at, set-append done p q todo)
      refl

empty_next : (r : ℕ) → 0 < r → replicate r zero_packet ≡ partial [] ∷ replicate (r - 1) zero_packet
unfolding pad
empty_next zero h = absurd (omega arith)
empty_next (suc r) h = ap (λ (n : ℕ). zero_packet ∷ replicate n zero_packet) (omega arith)

-- The loop in the middle of a message: `done` is finished, `pre` is in the current packet, and `r`
-- packets are empty.
abbrev Fills : ℕ → List ℕ → ℕ → ℕ → List Packet → List ℕ → Type 0
Fills l bs i r done pre =
    packetize_loop l bs i (done ++ partial pre ∷ replicate r zero_packet)
    ≡ some (done ++ segments pre bs)

module _ (l i r b c : ℕ) (bs : List ℕ) (done : List Packet) (pre : List ℕ)
    (left : length (b ∷ c ∷ bs) + i ≡ l) (place : i ≡ 10 * length done + length pre)
    (room : length pre < 10) where
  Fills-more :
      length pre < 9
      → Fills l (c ∷ bs) (i + 1) r done (pre ++ b ∷ [])
      → Fills l (b ∷ c ∷ bs) i r done pre
  unfolding segments
  Fills-more h ih =
      let no : (length pre == 9) ≡ false = ground arith in
      packetize_loop_step l i b (c ∷ bs) done (replicate r zero_packet) (partial pre)
        (partial (pre ++ b ∷ [])) (omega arith)
        (put_byte-more l i b pre (omega arith) (omega arith) h)
      ∙ ih
      ∙ rw no refl

  Fills-full :
      length pre ≡ 9
      → 0 < r
      → Fills l (c ∷ bs) (i + 1) (r - 1) (done ++ seal data_type 10 (pre ++ b ∷ []) ∷ []) []
      → Fills l (b ∷ c ∷ bs) i r done pre
  unfolding segments
  Fills-full h pos ih =
      let q = seal data_type 10 (pre ++ b ∷ []) in
      let yes : (length pre == 9) ≡ true = ground arith in
      packetize_loop_step l i b (c ∷ bs) done (replicate r zero_packet) (partial pre) q
        (omega arith) (put_byte-full l i b pre (omega arith) (omega arith) h)
      ∙ rw (empty_next r pos) (
          ap (packetize_loop l (c ∷ bs) (i + 1))
            (sym (append_assoc done (q ∷ []) (partial [] ∷ replicate (r - 1) zero_packet))))
      ∙ ih
      ∙ rw yes (ap some (append_assoc done (q ∷ []) (segments [] (c ∷ bs))))

fills :
    (bs : List ℕ) (l i r : ℕ) (done : List Packet) (pre : List ℕ)
    → length bs + i ≡ l
    → 0 < length bs
    → i ≡ 10 * length done + length pre
    → length pre < 10
    → l ≤ 10 * (length done + 1 + r)
    → 10 * (length done + r) < l
    → Fills l bs i r done pre
unfolding segments packetize_loop
fills [] l i r done pre left some_left place room enough few = absurd (omega arith)
fills (b ∷ []) l i r done pre left some_left place room enough few =
    let e : r ≡ 0 = omega arith in
    packetize_loop_step l i b [] done (replicate r zero_packet) (partial pre)
      (seal last_data ((length pre + 1) % 10 + 1) (pre ++ b ∷ [])) (omega arith)
      (put_byte-last l i b pre (omega arith) (omega arith))
    ∙ rw (packetize_loop, e) refl
fills (b ∷ c ∷ bs) l i r done pre left some_left place room enough few =
    elim (Bool-cases (length pre == 9)) [
      | inl full ↦
          let nine = (==_iff (length pre) 9).0 full in
          let more = length-append done (seal data_type 10 (pre ++ b ∷ []) ∷ []) in
          Fills-full l i r b c bs done pre left place room nine (omega (arith, nine)) (
            fills (c ∷ bs) l (i + 1) (r - 1) (done ++ seal data_type 10 (pre ++ b ∷ []) ∷ []) []
              (omega arith) (omega arith) (omega (arith, more, nine)) (omega arith)
              (omega (arith, more, nine)) (omega (arith, more, nine)))
      | inr less ↦
          Fills-more l i r b c bs done pre left place room
            (omega (arith, ne_of_== (length pre) 9 less))
            (fills (c ∷ bs) l (i + 1) r done (pre ++ b ∷ []) (omega arith) (omega arith)
              (omega (arith, length-append pre (b ∷ [])))
              (omega (arith, length-append pre (b ∷ []), ne_of_== (length pre) 9 less)) enough few)
    ]

-- Enough packets, and not one too many.
packet_count-bounds :
    (l : ℕ)
    → 0 < l
    → (0 < packet_count l) × (l ≤ 10 * packet_count l) × (10 * (packet_count l - 1) < l)
unfolding packet_count
packet_count-bounds l h = elim (Bool-cases (ltb 0 (l % 10))) [
  | inl e ↦ rw e (omega arith, omega arith, omega (arith, ltb→lt 0 (l % 10) e))
  | inr e ↦ rw e ((ground arith), (ground arith), (ground arith))
]

-- `packetize` cuts the message into the packets of the reference definition, for every message.
pub packetize-segments : (buffer : List ℕ) → packetize buffer ≡ some (segments [] buffer)
unfolding packetize segments packetize_loop packet_count pad
packetize-segments [] = refl
packetize-segments (b ∷ bs) =
    let n = packet_count (length (b ∷ bs)) in
    let (pos, enough, few) = packet_count-bounds (length (b ∷ bs)) (omega arith) in
    rw (packetize, empty_next n pos)
      (fills (b ∷ bs) (length (b ∷ bs)) 0 (n - 1) [] [] (omega arith) (omega arith) (omega arith)
        (omega arith) (omega (arith, pos, enough)) (omega (arith, few)))

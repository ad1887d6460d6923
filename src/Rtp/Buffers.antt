-- ===== src/Rtp/Buffers.antt =====
-- The growing message buffer of the receiver, `resize_buffer` and the copy loop of project-7/prj7/rtp.c.
use mathlib.Core.List.{append_assoc, append-nil}
use da_bus.Base.{
  ℕ, zero, suc, ◌+◌, ◌≤◌, ◌<◌, ◌≡◌, refl, sym, ap, ◌∙◌, Option, some, List, [], ◌∷◌, ◌++◌, arith,
  length, take, set, replicate, length-append, length-take, length-set, length-replicate, ◌==◌,
  Bool-cases, inl, inr, ne_of_==, ==_iff, ◌*◌, ◌^◌, ltb, true,
}
use da_bus.Rtp.{Buffer, resize_buffer, write_byte, append_byte, copy_payload, empty_buffer}
use da_bus.Rtp.Bytes.{take_all, take-append_le, take-set-suc}

pub record IsBuffer (b : Buffer) : Type 0 where
  pub sized : length b.bytes ≡ b.capacity
  pub within : b.length ≤ b.capacity
  pub room : 0 < b.capacity
  pub bounded : b.capacity < 2 ^ 31

-- The message so far.
unfoldable pub content : Buffer → List ℕ
content b = take b.length b.bytes

pub length-content : {b : Buffer} → IsBuffer b → length (content b) ≡ b.length
unfolding content
length-content {b} v = omega (arith, length-take b.length b.bytes, v.sized, v.within)

-- What `resize_buffer` returns.
abbrev doubled : Buffer → Buffer
doubled b = record b {
  bytes = take b.capacity b.bytes ++ replicate b.capacity 0;
  capacity = 2 * b.capacity;
}

resize_buffer-doubled : (b : Buffer) → b.capacity < 2 ^ 30 → resize_buffer b ≡ some (doubled b)
unfolding resize_buffer
resize_buffer-doubled b h =
    let low : ltb (2 * b.capacity) (2 ^ 31) ≡ true = ground arith in rw low refl

doubled-IsBuffer : {b : Buffer} → IsBuffer b → b.capacity < 2 ^ 30 → IsBuffer (doubled b)
doubled-IsBuffer {b} v h = record {
  sized = omega (
    arith,
    length-append (take b.capacity b.bytes) (replicate b.capacity 0),
    length-take b.capacity b.bytes,
    length-replicate {A = ℕ} b.capacity 0,
    v.sized,
  );
  within = omega (arith, v.within);
  room = omega (arith, v.room);
  bounded = omega (arith, h);
}

-- Resizing keeps the message.
content-doubled : {b : Buffer} → IsBuffer b → content (doubled b) ≡ content b
unfolding content
content-doubled {b} v =
    let whole : take b.capacity b.bytes ≡ b.bytes = rw (← v.sized) (take_all b.bytes) in
    rw whole
      (take-append_le b.length b.bytes (replicate b.capacity 0) (omega (arith, v.sized, v.within)))

abbrev pub Extends : Buffer → List ℕ → Option Buffer → Type 0
Extends b xs o = (b' : Buffer) × (o ≡ some b') × IsBuffer b' × (content b' ≡ content b ++ xs)

-- Once there is room.
write_byte-Extends :
    {b : Buffer} (x : ℕ) → IsBuffer b → b.length < b.capacity → Extends b (x ∷ []) (write_byte x b)
unfolding write_byte content
write_byte-Extends {b} x v h =
    let inside : ltb b.length (length b.bytes) ≡ true = ground (arith, v.sized, h) in
    let low : ltb (b.length + 1) (2 ^ 31) ≡ true = ground (arith, v.bounded, h) in
    (
      record b { bytes = set b.bytes b.length x; length = b.length + 1 },
      rw (write_byte, inside, low) refl,
      record {
        sized = length-set b.bytes b.length x ∙ v.sized;
        within = omega (arith, h);
        room = v.room;
        bounded = v.bounded;
      },
      (let e : b.length + 1 ≡ suc b.length = omega arith in
            ap (λ k. take k (set b.bytes b.length x)) e)
          ∙ take-set-suc b.length x b.bytes (omega (arith, v.sized, h)),
    )

append_byte-Extends :
    (x : ℕ) {b : Buffer} → IsBuffer b → b.length < 2 ^ 30 → Extends b (x ∷ []) (append_byte x b)
unfolding append_byte
append_byte-Extends x {b} v low = elim (Bool-cases (b.length == b.capacity)) [
  | inl full ↦
      let same = (==_iff b.length b.capacity).0 full in
      let small : b.capacity < 2 ^ 30 = omega (arith, low, same) in
      let (c, e, w, k) =
        write_byte-Extends x (doubled-IsBuffer v small) (omega (arith, v.room, same)) in
      (
        c,
        rw (append_byte, full, resize_buffer-doubled b small) e,
        w,
        k ∙ ap (λ l. l ++ x ∷ []) (content-doubled v),
      )
  | inr more ↦
      let lt : b.length < b.capacity = omega (arith, v.within, ne_of_== b.length b.capacity more) in
      let (c, e, w, k) = write_byte-Extends x v lt in (c, rw (append_byte, more) e, w, k)
]

copy_payload_step :
    (n : ℕ) (x : ℕ) (payload : List ℕ) (b : Buffer)
    → Extends b (x ∷ []) (append_byte x b)
    → ((c : Buffer)
        → IsBuffer c
        → content c ≡ content b ++ x ∷ []
        → Extends c (take n payload) (copy_payload payload n c))
    → Extends b (x ∷ take n payload) (copy_payload (x ∷ payload) (suc n) b)
unfolding copy_payload
copy_payload_step n x payload b (c, e, v, k) ih =
    let (d, f, w, l) = ih c v k in
    (d, rw (copy_payload, e) f, w, l ∙ rw k (append_assoc (content b) (x ∷ []) (take n payload)))

-- Copying `n` bytes of a payload that has them never leaves the buffer, and appends them, while the
-- message stays within 2 ^ 30 bytes.
pub copy_payload-Extends :
    (n : ℕ) (payload : List ℕ) {b : Buffer}
    → IsBuffer b
    → n ≤ length payload
    → b.length + n ≤ 2 ^ 30
    → Extends b (take n payload) (copy_payload payload n b)
unfolding copy_payload
copy_payload-Extends zero payload {b} v h low = (b, refl, v, sym (append-nil (content b)))
copy_payload-Extends (suc n) [] v h low = absurd (omega arith)
copy_payload-Extends (suc n) (x ∷ payload) {b} v h low =
    copy_payload_step n x payload b (append_byte-Extends x v (omega arith)) (λ c w k.
      copy_payload-Extends n payload w (omega arith) (
        omega (
          arith,
          sym (length-content w) ∙ ap length k,
          length-append (content b) (x ∷ []),
          length-content v,
        )))

pub empty_buffer-IsBuffer : IsBuffer empty_buffer
empty_buffer-IsBuffer = record {
  sized = refl;
  within = omega arith;
  room = omega arith;
  bounded = omega arith;
}

-- ===== src/Rtp/Delivery.antt =====
-- What a receiver that takes `payload_length` bytes of every packet gets from the packets that
-- `packetize` of project-7/prj7/rtp.c makes, and that it may take them.
use mathlib.Core.List.{append_assoc, append-nil}
use da_bus.Base.{
  ℕ, suc, ◌+◌, ◌-◌, ◌%◌, ◌≤◌, ◌<◌, ◌≡◌, refl, sym, ap, ◌∙◌, some, List, [], ◌∷◌, ◌++◌, arith,
  length, replicate, length-append, ◌==◌, take, if◌then◌else◌, Bool-cases, inl, inr, false, ==_iff,
  ne_of_==,
}
use da_bus.Rtp.{Packet, last_data, data_type, checksum}
use da_bus.Rtp.Bytes.{checksum-total, take-append_le, take-append_ge}
use da_bus.Rtp.Packets.{segments, seal, pad, length-pad}

-- A packet of the given type whose length is within the payload and whose checksum is right.
pub record IsSealed (type : ℕ) (p : Packet) : Type 0 where
  pub typed : p.type ≡ type
  pub sized : length p.payload ≡ 10
  pub within : p.payload_length ≤ 10
  pub right : checksum p.payload p.payload_length ≡ some p.checksum

-- A message in packets: all DATA but the last, which is LAST_DATA.
abbrev pub IsStream : List Packet → Type 0
IsStream [] = ⊥
IsStream (p ∷ []) = IsSealed last_data p
IsStream (p ∷ q ∷ ps) = IsSealed data_type p × IsStream (q ∷ ps)

-- The bytes that the packets deliver.
abbrev pub deliver : List Packet → List ℕ
deliver [] = []
deliver (p ∷ ps) = take p.payload_length p.payload ++ deliver ps

seal-IsSealed :
    (type n : ℕ) (xs : List ℕ) → length xs ≤ 10 → n ≤ 10 → IsSealed type (seal type n xs)
seal-IsSealed type n xs h k = record {
  typed = refl;
  sized = length-pad xs h;
  within = k;
  right = checksum-total (pad xs) n (omega (arith, length-pad xs h)) (omega arith);
}

IsStream-cons :
    (p : Packet) (ps : List Packet) → IsSealed data_type p → IsStream ps → IsStream (p ∷ ps)
IsStream-cons p [] h k = absurd k
IsStream-cons p (q ∷ ps) h k = (h, k)

pub segments-IsStream :
    (pre : List ℕ) (b : ℕ) (bs : List ℕ) → length pre < 10 → IsStream (segments pre (b ∷ bs))
unfolding segments
segments-IsStream pre b [] h =
    seal-IsSealed last_data ((length pre + 1) % 10 + 1) (pre ++ b ∷ [])
      (omega (arith, length-append pre (b ∷ []))) (omega arith)
segments-IsStream pre b (c ∷ bs) h = elim (Bool-cases (length pre == 9)) [
  | inl e ↦ rw e (
      IsStream-cons (seal data_type 10 (pre ++ b ∷ [])) (segments [] (c ∷ bs))
        (seal-IsSealed data_type 10 (pre ++ b ∷ []) (omega (arith, length-append pre (b ∷ [])))
          (omega arith))
        (segments-IsStream [] c bs (omega arith)))
  | inr e ↦ rw e (
      segments-IsStream (pre ++ b ∷ []) c bs
        (omega (arith, length-append pre (b ∷ []), ne_of_== (length pre) 9 e)))
]

-- What arrives of a message: a message whose length is no multiple of 10 gets one zero byte more,
-- and any other loses its last 9 bytes.
unfoldable pub received_form : List ℕ → List ℕ
received_form xs = if length xs % 10 == 0 then take (length xs - 9) xs else xs ++ 0 ∷ []

received_form-append :
    (xs ys : List ℕ)
    → length xs ≡ 10
    → 0 < length ys
    → received_form (xs ++ ys) ≡ xs ++ received_form ys
unfolding received_form
received_form-append xs ys h k =
    let l : length (xs ++ ys) ≡ 10 + length ys = omega (arith, length-append xs ys) in
    let m : (10 + length ys) % 10 ≡ length ys % 10 = omega arith in
    elim (Bool-cases (length ys % 10 == 0)) [
      | inl e ↦
          rw (l, m, e)
            (take-append_ge (10 + length ys - 9) xs ys
                (omega (arith, h, k, (==_iff (length ys % 10) 0).0 e))
              ∙ ap (λ n. xs ++ take n ys) (omega (arith, h)))
      | inr e ↦ rw (l, m, e) (append_assoc xs ys (0 ∷ []))
    ]

-- The last packet.
last_part :
    (xs : List ℕ)
    → 0 < length xs
    → length xs ≤ 10
    → take (length xs % 10 + 1) (pad xs) ≡ received_form xs
unfolding received_form pad
last_part xs h k = elim (Bool-cases (length xs == 10)) [
  | inl e ↦
      let ten : length xs ≡ 10 = (==_iff (length xs) 10).0 e in
      rw ten (take-append_le 1 xs [] (omega (arith, ten)))
  | inr e ↦
      let less : length xs < 10 = omega (arith, ne_of_== (length xs) 10 e) in
      let small : length xs % 10 ≡ length xs = omega (arith, less) in
      let some_left : (length xs == 0) ≡ false = ground arith in
      let one : length xs + 1 - length xs ≡ 1 = omega arith in
      let room : 10 - length xs ≡ suc (9 - length xs) = omega (arith, less) in
      rw (small, some_left, room)
        (take-append_ge (length xs + 1) xs (0 ∷ replicate (9 - length xs) 0) (omega arith)
          ∙ rw one refl)
]

last-take :
    (pre : List ℕ) (b : ℕ)
    → length pre < 10
    → take ((length pre + 1) % 10 + 1) (pad (pre ++ b ∷ [])) ≡ received_form (pre ++ b ∷ [])
last-take pre b h =
    let n = length-append pre (b ∷ []) in
    ap (λ k. take (k % 10 + 1) (pad (pre ++ b ∷ []))) (sym n)
    ∙ last_part (pre ++ b ∷ []) (omega (arith, n)) (omega (arith, n))

full_part : (xs : List ℕ) → length xs ≡ 10 → take 10 (pad xs) ≡ xs
unfolding pad
full_part xs h = rw h (take-append_ge 10 xs [] (omega (arith, h)) ∙ rw h (append-nil xs))

pub deliver-segments :
    (pre : List ℕ) (b : ℕ) (bs : List ℕ)
    → length pre < 10
    → deliver (segments pre (b ∷ bs)) ≡ received_form (pre ++ b ∷ bs)
unfolding segments
deliver-segments pre b [] h = append-nil _ ∙ last-take pre b h
deliver-segments pre b (c ∷ bs) h = elim (Bool-cases (length pre == 9)) [
  | inl e ↦
      let n = length-append pre (b ∷ []) in
      let ten : length (pre ++ b ∷ []) ≡ 10 = omega (arith, n, (==_iff (length pre) 9).0 e) in
      rw (e, full_part (pre ++ b ∷ []) ten)
        (ap (◌++◌ (pre ++ b ∷ [])) (deliver-segments [] c bs (omega arith))
          ∙ sym (received_form-append (pre ++ b ∷ []) (c ∷ bs) ten (omega arith))
          ∙ ap received_form (append_assoc pre (b ∷ []) (c ∷ bs)))
  | inr e ↦ rw e (
      deliver-segments (pre ++ b ∷ []) c bs
        (omega (arith, length-append pre (b ∷ []), ne_of_== (length pre) 9 e))
      ∙ ap received_form (append_assoc pre (b ∷ []) (c ∷ bs)))
]

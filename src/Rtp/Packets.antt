-- ===== src/Rtp/Packets.antt =====
-- `packetize` of project-7/prj7/rtp.c against a reference definition by recursion on the message.
use mathlib.Core.List.{append_assoc}
use da_bus.Base.{
  ℕ, suc, ◌+◌, ◌-◌, ◌%◌, ◌^◌, ◌≤◌, ◌<◌, ◌≡◌, refl, sym, ◌∙◌, some, List, [], ◌∷◌, ◌++◌, arith,
  length, take, set, replicate, length-append, length-replicate, ◌==◌, if◌then◌else◌, Bool-cases,
  inl, inr, true, false, ==_iff, ne_of_==,
}
use da_bus.Rtp.{Packet, zero_packet, finish_packet, put_byte, data_type, last_data}
use da_bus.Rtp.Bytes.{total, checksum-total, set-append}

-- A payload filled up with zero bytes.
unfoldable pub pad : List ℕ → List ℕ
pad xs = xs ++ replicate (10 - length xs) 0

-- A packet that is being filled.
abbrev pub partial : List ℕ → Packet
partial xs = record zero_packet { payload = pad xs }

-- A finished packet.
abbrev pub seal : ℕ → ℕ → List ℕ → Packet
seal type n xs = record {
  type = type;
  checksum = total (take n (pad xs)) % 2 ^ 32;
  payload_length = n;
  payload = pad xs;
}

-- The packets of the bytes `bs`, behind the bytes `pre` of an unfinished packet.
unfoldable pub segments : List ℕ → List ℕ → List Packet
segments pre [] = []
segments pre (b ∷ []) = seal last_data ((length pre + 1) % 10 + 1) (pre ++ b ∷ []) ∷ []
segments pre (b ∷ c ∷ bs) =
    let next = segments [] (c ∷ bs) in
    let more = segments (pre ++ b ∷ []) (c ∷ bs) in
    if length pre == 9 then seal data_type 10 (pre ++ b ∷ []) ∷ next else more

pub length-pad : (xs : List ℕ) → length xs ≤ 10 → length (pad xs) ≡ 10
unfolding pad
length-pad xs h = omega (
  arith,
  length-append xs (replicate (10 - length xs) 0),
  length-replicate {A = ℕ} (10 - length xs) 0,
)

set-pad :
    (pre : List ℕ) (b : ℕ) → length pre < 10 → set (pad pre) (length pre) b ≡ pad (pre ++ b ∷ [])
unfolding pad
set-pad pre b h =
    let k : 10 - length pre ≡ suc (9 - length pre) = omega arith in
    let e : 10 - length (pre ++ b ∷ []) ≡ 9 - length pre =
      omega (arith, length-append pre (b ∷ [])) in
    rw (k, e)
      (set-append pre 0 b (replicate (9 - length pre) 0)
        ∙ sym (append_assoc pre (b ∷ []) (replicate (9 - length pre) 0)))

abbrev filled : ℕ → ℕ → ℕ → List ℕ → Packet
filled t c n xs = record { type = t; checksum = c; payload_length = n; payload = pad xs }

finish_packet-seal :
    (t c l type n : ℕ) (xs : List ℕ)
    → length xs ≤ 10
    → n ≤ 10
    → finish_packet type n (filled t c l xs) ≡ some (seal type n xs)
unfolding finish_packet
finish_packet-seal t c l type n xs h k =
    rw (finish_packet, checksum-total (pad xs) n (omega (arith, length-pad xs h)) (omega arith))
      refl

-- The position in the packet.
module _ (l i b : ℕ) (pre : List ℕ) (at : i % 10 ≡ length pre) where
  short : length pre < 10
  short = omega arith

  put : set (pad pre) (i % 10) b ≡ pad (pre ++ b ∷ [])
  put = rw at (set-pad pre b short)

  size : length (pre ++ b ∷ []) ≡ length pre + 1
  size = length-append pre (b ∷ [])

  finishes :
      (t c n type k : ℕ)
      → k ≤ 10
      → finish_packet type k (filled t c n (pre ++ b ∷ [])) ≡ some (seal type k (pre ++ b ∷ []))
  finishes t c n type k h = finish_packet-seal t c n type k (pre ++ b ∷ []) (omega (arith, size)) h

  ends : length pre ≡ 9 → (i % 10 == 9) ≡ true
  ends h = ground arith

  goes_on : length pre < 9 → (i % 10 == 9) ≡ false
  goes_on h = ground arith

  pub put_byte-last :
      i + 1 ≡ l
      → put_byte l i b (partial pre)
        ≡ some (seal last_data ((length pre + 1) % 10 + 1) (pre ++ b ∷ []))
  unfolding put_byte
  put_byte-last h =
      let last : (i == l - 1) ≡ true = ground arith in
      let e : l % 10 ≡ (length pre + 1) % 10 = omega arith in
      elim (Bool-cases (length pre == 9)) [
        | inl full ↦
            rw
              (
                put_byte,
                put,
                ends ((==_iff (length pre) 9).0 full),
                finishes 0 0 0 data_type 10 (omega arith),
                last,
                e,
                finishes data_type (total (take 10 (pad (pre ++ b ∷ []))) % 2 ^ 32) 10 last_data
                    ((length pre + 1) % 10 + 1) (omega arith),
              )
              refl
        | inr less ↦
            rw
              (
                put_byte,
                put,
                goes_on (omega (arith, short, ne_of_== (length pre) 9 less)),
                last,
                e,
                finishes 0 0 0 last_data ((length pre + 1) % 10 + 1) (omega arith),
              )
              refl
      ]

  pub put_byte-more :
      i + 1 < l → length pre < 9 → put_byte l i b (partial pre) ≡ some (partial (pre ++ b ∷ []))
  unfolding put_byte
  put_byte-more h k =
      let last : (i == l - 1) ≡ false = ground arith in rw (put_byte, put, goes_on k, last) refl

  pub put_byte-full :
      i + 1 < l
      → length pre ≡ 9
      → put_byte l i b (partial pre) ≡ some (seal data_type 10 (pre ++ b ∷ []))
  unfolding put_byte
  put_byte-full h k =
      let last : (i == l - 1) ≡ false = ground arith in
      rw (put_byte, put, ends k, finishes 0 0 0 data_type 10 (omega arith), last) refl

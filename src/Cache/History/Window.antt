-- ===== src/Cache/History/Window.antt =====
-- The last `n` elements of a list without repetition, when an element is moved to its end.
use da_bus.Base.{
  ℕ, zero, suc, ◌+◌, ◌-◌, ◌≤◌, ◌<◌, ◌≡◌, refl, ap, ◌∙◌, true, false, List, [], ◌∷◌, ◌++◌, arith,
  if◌then◌else◌, Bool-cases, inl, inr, has, erase, IsNodup, length, ltb, drop, erase_absent,
  length-append, length-erase, length-drop,
}

unfoldable pub last : ℕ → List ℕ → List ℕ
last n xs = drop (length xs - n) xs

pub last-nil : (n : ℕ) → last n [] ≡ []
unfolding last
last-nil n = let z : 0 - n ≡ 0 = omega arith in rw z

drop-append : (k : ℕ) (xs ys : List ℕ) → k ≤ length xs → drop k (xs ++ ys) ≡ drop k xs ++ ys
drop-append zero xs ys h = refl
drop-append (suc k) [] ys h = absurd (omega arith)
drop-append (suc k) (x ∷ xs) ys h = drop-append k xs ys (omega arith)

has-drop : (k t : ℕ) (xs : List ℕ) → has t (drop k xs) ≡ true → has t xs ≡ true
has-drop zero t xs h = h
has-drop (suc k) t [] h = h
has-drop (suc k) t (x ∷ xs) h = ground (arith, has-drop k t xs)

drop-erase_in :
    (k t : ℕ) (xs : List ℕ)
    → IsNodup xs
    → has t (drop k xs) ≡ true
    → drop k (erase t xs) ≡ erase t (drop k xs)
drop-erase_in zero t xs n h = refl
drop-erase_in (suc k) t [] n h = refl
drop-erase_in (suc k) t (x ∷ xs) n h = ground (arith, drop-erase_in k t xs, has-drop k t xs)

drop-drop_one : (k : ℕ) (xs : List ℕ) → drop 1 (drop k xs) ≡ drop (suc k) xs
drop-drop_one zero xs = refl
drop-drop_one (suc k) [] = refl
drop-drop_one (suc k) (x ∷ xs) = drop-drop_one k xs

drop-erase_out :
    (k t : ℕ) (xs : List ℕ)
    → has t xs ≡ true
    → has t (drop k xs) ≡ false
    → drop k (erase t xs) ≡ drop (suc k) xs
drop-erase_out k t [] h n = ground arith
drop-erase_out zero t (x ∷ xs) h n = ground arith
drop-erase_out (suc k) t (x ∷ xs) h n = ground (arith, drop-erase_out k t xs)

last-snoc :
    (n t : ℕ) (xs : List ℕ) → 0 < n → last n (xs ++ t ∷ []) ≡ drop (length xs + 1 - n) xs ++ t ∷ []
unfolding last
last-snoc n t xs h =
    rw (length-append xs (t ∷ [])) (drop-append (length xs + 1 - n) xs (t ∷ []) (omega arith))

-- Erasing an element of `xs` and putting it at the end: what the window of `n` then starts with.
erased :
    (n t : ℕ) (xs : List ℕ)
    → 0 < n
    → has t xs ≡ true
    → last n (erase t xs ++ t ∷ []) ≡ drop (length xs - n) (erase t xs) ++ t ∷ []
erased n t xs h k =
    let e : length (erase t xs) + 1 - n ≡ length xs - n = omega (arith, length-erase t xs k) in
    last-snoc n t (erase t xs) h ∙ ap (λ m. drop m (erase t xs) ++ t ∷ []) e

module _ (n t : ℕ) (xs : List ℕ) (pos : 0 < n) where
  abbrev pub Goal : Type 0
  Goal =
      (if has t (last n xs)
        then erase t (last n xs) ++ t ∷ []
        else if ltb (length (last n xs)) n
        then last n xs ++ t ∷ []
        else drop 1 (last n xs) ++ t ∷ [])
      ≡ last n (erase t xs ++ t ∷ [])

  recent : IsNodup xs → has t (last n xs) ≡ true → Goal
  unfolding last
  recent d h = rw (
    h,
    erased n t xs pos (has-drop (length xs - n) t xs h),
    drop-erase_in (length xs - n) t xs d h,
  )

  long : has t xs ≡ true → has t (last n xs) ≡ false → n < length xs
  unfolding last
  long k h = elim (Bool-cases (ltb n (length xs))) [
    | inl e ↦ ground arith
    | inr e ↦
        let z : length xs - n ≡ 0 = ground arith in
        let out : has t xs ≡ false = rw z at h in absurd (ground arith)
  ]

  forgotten : has t xs ≡ true → has t (last n xs) ≡ false → Goal
  unfolding last
  forgotten k h =
      rw (h, erased n t xs pos k, drop-erase_out (length xs - n) t xs k h, drop-drop_one)
        (ground (arith, length-drop (length xs - n) xs, long k h))

  fresh : has t xs ≡ false → has t (last n xs) ≡ false → Goal
  unfolding last
  fresh k h =
      rw (h, erase_absent t xs k, last-snoc n t xs pos, drop-drop_one)
        (elim (Bool-cases (ltb (length xs) n)) [
          | inl e ↦
              let z : length xs - n ≡ 0 = ground arith in
              let z' : length xs + 1 - n ≡ 0 = ground arith in rw (z, z', e)
          | inr e ↦
              let z : length xs + 1 - n ≡ suc (length xs - n) = ground arith in
              rw z (ground (arith, length-drop (length xs - n) xs))
        ])

  -- Using `t` takes the last `n` elements of `xs` to the last `n` of `xs` with `t` moved to its end.
  pub window-use : IsNodup xs → Goal
  window-use d = elim (Bool-cases (has t (last n xs))) [
    | inl h ↦ recent d h
    | inr h ↦ elim (Bool-cases (has t xs)) [ inl k ↦ forgotten k h | inr k ↦ fresh k h ]
  ]

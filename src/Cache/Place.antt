-- ===== src/Cache/Place.antt =====
-- What putting a block in a way as its most recent one keeps of the invariant of the cache, and does
-- to the tags of each line.
use mathlib.Core.Path.{ap₂}
use da_bus.Base.{
  ℕ, ◌-◌, ◌^◌, ◌<◌, ◌≡◌, refl, sym, ap, ◌∙◌, ◌≢◌, true, List, [], ◌∷◌, ◌++◌, arith, ◌==◌,
  Bool-cases, inl, inr, has, erase, IsNodup, has-erase_ne, has-erase_self, IsNodup-erase,
  IsNodup-snoc, has-append, length-append, length-erase, ==_iff, ne_of_==,
}
use da_bus.Cache.{Block, Cache, block_at, set_block, update_lru, index_decode, tag_decode}
use da_bus.Cache.Address.{IsSized}
use da_bus.Cache.Recency.{bubble-erase}
use da_bus.Cache.Blocks.{
  IsShaped, lru_at, block_at-set_block_self, block_at-set_block_ne, IsShaped-set_block,
  decode-set_block, IsShaped-update_lru, lru_at-update_lru_self, lru_at-update_lru_ne,
  index_decode-update_lru, tag_decode-update_lru,
}
use da_bus.Cache.Ways.{resident, resident-append, resident-agree}
use da_bus.Cache.Invariant.{IsLine, IsValid, resident_tags, place, index_decode-lt_lines}

ne_of_has-erase : (v w : ℕ) (l : List ℕ) → IsNodup l → has v (erase w l) ≡ true → v ≢ w
ne_of_has-erase v w l n h = elim (Bool-cases (v == w)) [
  | inl e ↦ absurd (ground (arith, (==_iff v w).0 e, has-erase_self w l n))
  | inr e ↦ ne_of_== v w e
]

module _ {c : Cache} (valid : IsValid c) (address w : ℕ) (b : Block) (hw : w < c.associativity)
    (keeps : b.valid ≡ true)
    (alone : (v : ℕ)
      → v < c.associativity
      → v ≢ w
      → (block_at c v (index_decode c address)).valid ≡ true
      → (block_at c v (index_decode c address)).tag ≢ b.tag) where
  abbrev pub row : ℕ
  row = index_decode c address

  row-lt : row < c.lines
  row-lt = index_decode-lt_lines valid address

  shaped' : IsShaped (update_lru address w c)
  shaped' = IsShaped-update_lru c address w valid.shaped

  lines_same :
      ((update_lru address w c).lines ≡ c.lines)
      × ((update_lru address w c).associativity ≡ c.associativity)
  unfolding update_lru
  lines_same = (refl, refl)

  pub lru-place : lru_at (place c address w b) row ≡ erase w (lru_at c row) ++ w ∷ []
  unfolding place set_block
  lru-place =
      lru_at-update_lru_self c address w valid.shaped row-lt
      ∙ bubble-erase w (lru_at c row) ((valid.line row row-lt).complete w hw)

  lru-place_ne : (i : ℕ) → i ≢ row → lru_at (place c address w b) i ≡ lru_at c i
  unfolding place set_block
  lru-place_ne i ne = lru_at-update_lru_ne c address w i ne

  pub block-place_self : block_at (place c address w b) w row ≡ b
  unfolding place update_lru
  block-place_self = block_at-set_block_self (update_lru address w c) w row b shaped' hw row-lt

  pub block-place_ne : (v : ℕ) → v ≢ w → block_at (place c address w b) v row ≡ block_at c v row
  unfolding place update_lru block_at
  block-place_ne v ne =
      block_at-set_block_ne (update_lru address w c) w row b v row shaped' hw (inl ne)

  block-place-row : (v i : ℕ) → i ≢ row → block_at (place c address w b) v i ≡ block_at c v i
  unfolding place update_lru block_at
  block-place-row v i ne =
      block_at-set_block_ne (update_lru address w c) w row b v i shaped' hw (inr ne)

  pub same_ways : (place c address w b).associativity ≡ c.associativity
  unfolding place set_block update_lru
  same_ways = refl

  old : IsLine c row
  old = valid.line row row-lt

  place-members : (v : ℕ) → has v (lru_at (place c address w b) row) ≡ true → v < c.associativity
  place-members v h = elim (Bool-cases (v == w)) [
    | inl e ↦ rw ((==_iff v w).0 e) hw
    | inr e ↦ old.members v (
        ground (
          arith,
          rw lru-place at h,
          has-append v (erase w (lru_at c row)) (w ∷ []),
          has-erase_ne v w (lru_at c row),
        ))
  ]

  place_complete : (v : ℕ) → v < c.associativity → has v (lru_at (place c address w b) row) ≡ true
  place_complete v h = rw lru-place (
      ground (
        arith,
        old.complete v h,
        has-append v (erase w (lru_at c row)) (w ∷ []),
        has-erase_ne v w (lru_at c row),
      ))

  place_unique_new :
      (v : ℕ)
      → v < c.associativity
      → (block_at (place c address w b) v row).valid ≡ true
      → (block_at (place c address w b) v row).tag ≡ b.tag
      → v ≡ w
  place_unique_new v h k t = elim (Bool-cases (v == w)) [
    | inl e ↦ (==_iff v w).0 e
    | inr e ↦
        let ne = ne_of_== v w e in
        absurd (alone v h ne (rw (block-place_ne v ne) at k) (rw (block-place_ne v ne) at t))
  ]

  place_unique :
      (u v : ℕ)
      → u < c.associativity
      → v < c.associativity
      → (block_at (place c address w b) u row).valid ≡ true
      → (block_at (place c address w b) v row).valid ≡ true
      → (block_at (place c address w b) u row).tag ≡ (block_at (place c address w b) v row).tag
      → u ≡ v
  place_unique u v hu hv ku kv t = elim (Bool-cases (u == w)) [
    | inl e ↦
        let p = (==_iff u w).0 e in
        p
        ∙ sym (
            place_unique_new v hv kv (
              sym t
              ∙ ap (λ x. (block_at (place c address w b) x row).tag) p
              ∙ ap (λ x. x.tag) block-place_self))
    | inr e ↦ elim (Bool-cases (v == w)) [
      | inl e' ↦
          let p = (==_iff v w).0 e' in
          place_unique_new u hu ku (
            t
            ∙ ap (λ x. (block_at (place c address w b) x row).tag) p
            ∙ ap (λ x. x.tag) block-place_self)
          ∙ sym p
      | inr e' ↦
          let a = block-place_ne u (ne_of_== u w e) in
          let a' = block-place_ne v (ne_of_== v w e') in
          old.unique u v hu hv (rw a at ku) (rw a' at kv) (rw (a, a') at t)
    ]
  ]

  IsLine-place : IsLine (place c address w b) row
  IsLine-place = record {
    order = rw lru-place (
        IsNodup-snoc w (erase w (lru_at c row)) (has-erase_self w (lru_at c row) old.order)
          (IsNodup-erase w (lru_at c row) old.order));
    count =
        rw (lru-place, same_ways)
          (omega (
            arith,
            length-append (erase w (lru_at c row)) (w ∷ []),
            length-erase w (lru_at c row) (old.complete w hw),
            old.count,
          ));
    members = λ v h. rw same_ways (place-members v h);
    complete = λ v h. place_complete v (rw same_ways at h);
    unique = λ u v hu hv. place_unique u v (rw same_ways at hu) (rw same_ways at hv);
  }

  IsLine-place_ne : (i : ℕ) → i ≢ row → IsLine c i → IsLine (place c address w b) i
  IsLine-place_ne i ne l = record {
    order = rw (lru-place_ne i ne) l.order;
    count = rw (lru-place_ne i ne, same_ways) l.count;
    members = λ v h. rw same_ways (l.members v (rw (lru-place_ne i ne) at h));
    complete = λ v h. rw (lru-place_ne i ne) (l.complete v (rw same_ways at h));
    unique = λ u v hu hv ku kv t.
        l.unique u v (rw same_ways at hu) (rw same_ways at hv) (rw (block-place-row u i ne) at ku)
          (rw (block-place-row v i ne) at kv)
          (rw (block-place-row u i ne, block-place-row v i ne) at t);
  }

  IsSized-place : IsSized (place c address w b)
  unfolding place set_block update_lru
  IsSized-place = record {
    fits = valid.sized.fits;
    lower = valid.sized.lower;
    upper = valid.sized.upper;
  }

  rows-place :
      ((place c address w b).lines ≡ c.lines)
      × (2
            ^ ((place c address w b).c_bits
                - (place c address w b).b_bits
                - (place c address w b).s_bits)
          ≡ 2 ^ (c.c_bits - c.b_bits - c.s_bits))
  unfolding place set_block update_lru
  rows-place = (refl, refl)

  IsShaped-place : IsShaped (place c address w b)
  unfolding place
  IsShaped-place =
      IsShaped-set_block (update_lru address w c) w (index_decode c address) b (rw lines_same.1 hw)
        shaped'

  pub IsValid-place : IsValid (place c address w b)
  IsValid-place = record {
    shaped = IsShaped-place;
    sized = IsSized-place;
    rows = rows-place.0 ∙ valid.rows ∙ sym rows-place.1;
    some_way = rw same_ways valid.some_way;
    line = λ i h. elim (Bool-cases (i == row)) [
      | inl e ↦ rw ((==_iff i row).0 e) IsLine-place
      | inr e ↦ IsLine-place_ne i (ne_of_== i row e) (valid.line i (rw rows-place.0 at h))
    ];
  }

  resident_new : resident (λ v. block_at (place c address w b) v row) (w ∷ []) ≡ b.tag ∷ []
  unfolding resident
  resident_new = rw (block-place_self, keeps)

  -- The line holds what it held without the way, and the new tag behind it.
  pub resident-place :
      resident_tags (place c address w b) row
      ≡ resident (λ v. block_at c v row) (erase w (lru_at c row)) ++ b.tag ∷ []
  unfolding resident_tags
  resident-place =
      let l = lru_at c row in
      let f = λ (v : ℕ). block_at c v row in
      let g = λ (v : ℕ). block_at (place c address w b) v row in
      rw (lru-place, resident-append g (erase w l) (w ∷ []))
        (ap₂ ◌++◌
          (resident-agree g f (erase w l)
            λ v h. block-place_ne v (ne_of_has-erase v w l old.order h))
          resident_new)

  pub resident-place_ne :
      (i : ℕ) → i ≢ row → resident_tags (place c address w b) i ≡ resident_tags c i
  unfolding resident_tags
  resident-place_ne i ne =
      rw (lru-place_ne i ne) (resident-agree _ _ (lru_at c i) (λ v h. block-place-row v i ne))

  pub decode-place :
      (a : ℕ)
      → (index_decode (place c address w b) a ≡ index_decode c a)
        × (tag_decode (place c address w b) a ≡ tag_decode c a)
  unfolding place
  decode-place a =
      let (i, t) = decode-set_block (update_lru address w c) w (index_decode c address) b a in
      (i ∙ index_decode-update_lru c address w a, t ∙ tag_decode-update_lru c address w a)

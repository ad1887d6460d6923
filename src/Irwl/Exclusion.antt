-- ===== src/Irwl/Exclusion.antt =====
-- When the reader of the lock of project-6/prj6/os-sim.c gets into its section.
use mathlib.Core.Path.{subst}
use da_bus.Base.{
  ℕ, ◌+◌, ◌-◌, ◌%◌, ◌^◌, ◌≤◌, ◌<◌, ◌≡◌, ◌≢◌, refl, sym, arith, true, false, ltb, ◌==◌, inl, inr,
  ◌⊎◌, Bool-cases,
}
use da_bus.Irwl.{
  Reader, outside, sleeping, signalled, reading, Irwl, irwl_init, positive, reader_lock,
  reader_unlock, writer_lock, writer_unlock, signal, Users, max_users, Step, enter, leave, lend,
  restore, read, done, Reach, start, later, unused,
}

-- What the place of the reader says of the threads.
abbrev pub Allows : Reader → ℕ → ℕ → Type 0
Allows outside inside lent = Unit
Allows sleeping inside lent = lent < inside
Allows signalled inside lent = Unit
Allows reading inside lent = inside ≤ lent

-- The count of the lock is that of the threads inside, less those that are in `context_switch`.
record IsLock (s : Users) : Type 0 where
  few : (s.inside ≤ max_users) × (s.lent ≤ max_users)
  counted : s.lock.writers ≡ (s.inside + 2 ^ 32 - s.lent) % 2 ^ 32
  allows : Allows s.lock.reader s.inside s.lent

-- The reader sleeps or is elsewhere, while the difference does not become 0.
grows : (r : Reader) (a b c d : ℕ) → r ≢ reading → a + d ≤ c + b → Allows r a b → Allows r c d
grows outside a b c d ne l h = tt
grows sleeping a b c d ne l h = omega arith
grows signalled a b c d ne l h = tt
grows reading a b c d ne l h = absurd (ne refl)

signal-Allows : (r : Reader) (a b : ℕ) → r ≢ reading → Allows (signal r) a b
unfolding signal
signal-Allows outside a b ne = tt
signal-Allows sleeping a b ne = tt
signal-Allows signalled a b ne = tt
signal-Allows reading a b ne = absurd (ne refl)

shrinks :
    (r : Reader) (a b c d n : ℕ)
    → r ≢ reading
    → a + d ≡ c + b + 1
    → d ≤ max_users
    → n ≡ (c + 2 ^ 32 - d) % 2 ^ 32
    → (n == 0) ≡ false
    → Allows r a b
    → Allows r c d
shrinks outside a b c d n ne l f e z h = tt
shrinks sleeping a b c d n ne l f e z h = ground (arith, e, z)
shrinks signalled a b c d n ne l f e z h = tt
shrinks reading a b c d n ne l f e z h = absurd (ne refl)

writer_unlock-Allows :
    (i : Irwl) (a b c d : ℕ)
    → i.reader ≢ reading
    → a + d ≡ c + b + 1
    → (a ≤ max_users) × (d ≤ max_users)
    → i.writers ≡ (a + 2 ^ 32 - b) % 2 ^ 32
    → Allows i.reader a b
    → ((writer_unlock i).writers ≡ (c + 2 ^ 32 - d) % 2 ^ 32) × Allows (writer_unlock i).reader c d
unfolding writer_unlock
writer_unlock-Allows i a b c d ne l few e h =
    let n = (i.writers + 2 ^ 32 - 1) % 2 ^ 32 in
    let f : n ≡ (c + 2 ^ 32 - d) % 2 ^ 32 = omega (arith, e, l, few) in
    (
      f,
      elim (Bool-cases (n == 0)) [
        | inl z ↦ rw (writer_unlock, z) (signal-Allows i.reader c d ne)
        | inr z ↦ rw (writer_unlock, z) (shrinks i.reader a b c d n ne l few.1 f z h)
      ],
    )

positive-count :
    (w a b : ℕ)
    → (a ≤ max_users) × (b ≤ max_users)
    → w ≡ (a + 2 ^ 32 - b) % 2 ^ 32
    → ((positive w ≡ true) × (b < a)) ⊎ ((positive w ≡ false) × (a ≤ b))
unfolding positive
positive-count w a b few e = elim (Bool-cases (ltb b a)) [
  | inl h ↦ inl (ground (arith, e, few, h))
  | inr h ↦ inr (ground (arith, e, few, h))
]

Step-IsLock : {s t : Users} → Step s t → IsLock s → IsLock t
unfolding writer_lock reader_lock reader_unlock
Step-IsLock {s} {t} (enter ne l e) v = subst IsLock (sym e) (record {
  few = omega (arith, v.few, l);
  counted = omega (arith, v.few, v.counted);
  allows = grows s.lock.reader s.inside s.lent (s.inside + 1) s.lent ne (omega arith) v.allows;
})
Step-IsLock {s} {t} (restore n ne l e) v = subst IsLock (sym e) (record {
  few = omega (arith, v.few, l);
  counted = omega (arith, v.few, v.counted, l);
  allows = grows s.lock.reader s.inside s.lent s.inside n ne (omega (arith, l)) v.allows;
})
Step-IsLock {s} {t} (leave n ne l e) v =
    let h =
      writer_unlock-Allows s.lock s.inside s.lent n s.lent ne (omega (arith, l)) v.few v.counted
        v.allows in
    subst IsLock (sym e) (record { few = omega (arith, v.few, l); counted = h.0; allows = h.1 })
Step-IsLock {s} {t} (lend ne l e) v =
    let h =
      writer_unlock-Allows s.lock s.inside s.lent s.inside (s.lent + 1) ne (omega arith)
        (omega (arith, v.few, l)) v.counted v.allows in
    subst IsLock (sym e) (record { few = omega (arith, v.few, l); counted = h.0; allows = h.1 })
Step-IsLock {s} {t} (read l e) v = subst IsLock (sym e) (record {
  few = v.few;
  counted = v.counted;
  allows = elim (positive-count s.lock.writers s.inside s.lent v.few v.counted) [
    | inl (p, h) ↦ rw p h
    | inr (p, h) ↦ rw p h
  ];
})
Step-IsLock {s} {t} (done l e) v =
    subst IsLock (sym e) (record { few = v.few; counted = v.counted; allows = tt })

Reach-IsLock : {s t : Users} → IsLock s → Reach s t → IsLock t
Reach-IsLock v start = v
Reach-IsLock v (later r st) = Step-IsLock st (Reach-IsLock v r)

-- In every interleaving of up to 17 threads: while the reader is in its section, no more threads run
-- a handler than are in `context_switch` for `idle`, so that it excludes them all only if there is
-- no such call; while it sleeps, more do, so that one of them still comes to the signal.
pub Reach-Allows : {t : Users} → Reach unused t → Allows t.lock.reader t.inside t.lent
unfolding unused irwl_init
Reach-Allows r = (Reach-IsLock (record { few = omega arith; counted = refl; allows = tt }) r).allows

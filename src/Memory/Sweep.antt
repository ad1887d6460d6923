-- ===== src/Memory/Sweep.antt =====
-- The clock sweep of project-4/prj4/student-src/page-replacement.c ends.
use da_bus.Base.{ℕ, zero, suc, ◌+◌, ◌<◌, ◌≡◌, Bool, false, if◌then◌else◌, ◌⊎◌}
use da_bus.Memory.{Config, Machine, num_frames}
use da_bus.Memory.Paging.{frame_pte}

-- The number of places below `n` where a test holds.
abbrev count_below : ℕ → (ℕ → Bool) → ℕ
count_below zero p = 0
count_below (suc n) p = (if p n then 1 else 0) + count_below n p

abbrev is_live : Machine → ℕ → Bool
is_live m i = (frame_pte i m).valid

-- Where the clock sweep stops: at frame 0, whose page was not used, with nothing changed; or at a
-- frame whose page is marked invalid by then.
abbrev pub Stops : Config → Machine → ℕ → Machine → Type 0
Stops c m i m' =
    (i < num_frames c)
    × ((((frame_pte 0 m).used ≡ false) × (i ≡ 0) × (m' ≡ m)) ⊎ ((frame_pte i m').valid ≡ false))

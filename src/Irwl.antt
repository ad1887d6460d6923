-- ===== src/Irwl.antt =====
-- The inverted readers-writers lock of project-6/prj6/os-sim.c, and the threads that use it: the CPU
-- threads and the supervisor around the handlers, `context_switch`, and `print_gantt_line`. Each step
-- is what a thread does while it has the mutex of the lock.
mod Exclusion
mod Tests
use da_bus.Base.{
  ℕ, suc, ◌+◌, ◌-◌, ◌%◌, ◌^◌, ◌<◌, ◌≡◌, ◌≢◌, Bool, ◌&&◌, ltb, ◌==◌, if◌then◌else◌, ◌⊎◌,
}

-- The one reader: outside, in the wait for the condition `no_writers`, behind the signal, or in its
-- section, where it keeps the mutex.
pub data Reader : Type 0 where
  outside : Reader
  sleeping : Reader
  signalled : Reader
  reading : Reader

-- `irwl` with its reader; `writers` is a 32-bit pattern.
pub record Irwl : Type 0 where
  pub writers : ℕ
  pub reader : Reader

pub irwl_init : Irwl
irwl_init = record { writers = 0; reader = outside }

-- An int above 0.
pub positive : ℕ → Bool
positive n = ltb 0 n && ltb n (2 ^ 31)

-- One test of the loop, at its start or behind a signal.
pub reader_lock : Irwl → Irwl
reader_lock i = record i { reader = if positive i.writers then sleeping else reading }

pub reader_unlock : Irwl → Irwl
reader_unlock i = record i { reader = outside }

pub writer_lock : Irwl → Irwl
writer_lock i = record i { writers = (i.writers + 1) % 2 ^ 32 }

pub signal : Reader → Reader
signal sleeping = signalled
signal r = r

pub writer_unlock : Irwl → Irwl
writer_unlock i =
    let n = (i.writers + 2 ^ 32 - 1) % 2 ^ 32 in
    record { writers = n; reader = if n == 0 then signal i.reader else i.reader }

-- The lock, with the number of threads that run a handler behind `IRWL_WRITER_LOCK`, and of those
-- that are in `context_switch` for `idle`, which takes no lock, between the unlock and the lock there.
pub record Users : Type 0 where
  pub lock : Irwl
  pub inside : ℕ
  pub lent : ℕ

-- 16 CPU threads and the supervisor.
abbrev pub max_users : ℕ
max_users = 17

pub data Step (s t : Users) : Type 0 where
  enter :
      s.lock.reader ≢ reading
      → s.inside < max_users
      → t ≡ record s { lock = writer_lock s.lock; inside = s.inside + 1 }
      → Step s t
  leave :
      (n : ℕ)
      → s.lock.reader ≢ reading
      → s.inside ≡ suc n
      → t ≡ record s { lock = writer_unlock s.lock; inside = n }
      → Step s t
  lend :
      s.lock.reader ≢ reading
      → s.lent < max_users
      → t ≡ record s { lock = writer_unlock s.lock; lent = s.lent + 1 }
      → Step s t
  restore :
      (n : ℕ)
      → s.lock.reader ≢ reading
      → s.lent ≡ suc n
      → t ≡ record s { lock = writer_lock s.lock; lent = n }
      → Step s t
  read :
      (s.lock.reader ≡ outside) ⊎ (s.lock.reader ≡ signalled)
      → t ≡ record s { lock = reader_lock s.lock }
      → Step s t
  done : s.lock.reader ≡ reading → t ≡ record s { lock = reader_unlock s.lock } → Step s t

pub data Reach (s : Users) : Users → Type 0 where
  start : Reach s s
  later : {t u : Users} → Reach s t → Step t u → Reach s u

pub unused : Users
unused = record { lock = irwl_init; inside = 0; lent = 0 }

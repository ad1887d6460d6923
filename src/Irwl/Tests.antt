-- ===== src/Irwl/Tests.antt =====
-- The reader gets into its section while a handler runs.
use da_bus.Base.{refl, arith, inl}
use da_bus.Irwl.{
  reading, irwl_init, positive, reader_lock, writer_lock, writer_unlock, signal, Users, enter, lend,
  read, Reach, start, later, unused,
}
use da_bus.Irwl.Exclusion.{Allows, Reach-Allows}

-- A CPU thread calls a handler, and another one schedules a process from `idle`.
abbrev shared : Users
shared = record { lock = record { writers = 0; reader = reading }; inside = 1; lent = 1 }

Reach-shared : Reach unused shared
unfolding unused irwl_init positive reader_lock writer_lock writer_unlock signal
Reach-shared =
    later
      (later (later start (enter (λ e. ground (arith, e)) (omega arith) refl))
        (lend (λ e. ground (arith, e)) (omega arith) refl))
      (read (inl refl) refl)

Reach-Allows_example : Allows reading 1 1
Reach-Allows_example = Reach-Allows Reach-shared

-- ===== src/Scheduler/Tests.antt =====
-- The scheduler with two CPUs and four processes: runs, and the theorems at that state.
use mathlib.Core.Option.{some_inj}
use da_bus.Base.{
  ℕ, zero, suc, ◌≡◌, ◌≢◌, refl, sym, Option, none, some, [], ◌∷◌, arith, true, ◌<◌, ◌≤◌,
}
use da_bus.Scheduler.{
  Pcb, process_ready, process_running, process_waiting, process_terminated, Os, cpu_running,
  enqueue_ready, dequeue_ready, schedule, preempt, yield, terminate, wake_up, update, force_preempt,
  find_lowest, preempt_lowest, set_state, dispatch, context_switch,
}
use da_bus.Scheduler.Priority.{dequeue_priority_ready, unlink, before, points_to, highest_from}
use da_bus.Scheduler.Queue.{IsQueue, Kept, enqueue_ready-IsQueue}
use da_bus.Scheduler.Handlers.{IsOs}
use da_bus.Scheduler.Events.{Gives, Switched, preempt-Scheduled, yield-terminate}
use da_bus.Scheduler.WakeUp.{wake_up-IsOs}
use da_bus.Scheduler.Search.{AllBusy, IsLowest}
use da_bus.Scheduler.Preemption.{Preempts, wake_up-Preempts}

program : Unit {0}
unfolding enqueue_ready dequeue_ready schedule preempt yield terminate wake_up update force_preempt
    find_lowest preempt_lowest set_state dispatch context_switch
program = tt

-- Processes 0 and 1 run, 2 is ready and 3 waits.
abbrev blocks : ℕ → Pcb
blocks zero = record { static_priority = 3; state = process_running; next = none }
blocks (suc zero) = record { static_priority = 5; state = process_running; next = none }
blocks (suc (suc zero)) = record { static_priority = 4; state = process_ready; next = none }
blocks (suc (suc (suc n))) = record { static_priority = 9; state = process_waiting; next = none }

abbrev runs_on : ℕ → Option ℕ
runs_on zero = some 0
runs_on (suc zero) = some 1
runs_on (suc (suc n)) = none

abbrev small : Os
small = record {
  pcbs = blocks;
  queue = record { head = some 2; tail = some 2; count = 1 };
  current = runs_on;
  cpu_count = 2;
  static_priority_flag = true;
  time_slice = 4294967295;
  cpu_data = λ c. record { current = runs_on c; state = cpu_running; preemption_timer = 0 };
  context_switches = 0;
  processes_terminated = 0;
}

on_cpu : ℕ → Option Os → Option ℕ
on_cpu c none = none
on_cpu c (some os) = os.current c

-- Process 2 gets CPU 0, and process 0 is the next in the list.
preempt-small : on_cpu 0 (preempt 0 small) ≡ some 2
unfolding program on_cpu
preempt-small = refl

small-IsOs : IsOs small (2 ∷ [])
small-IsOs = record {
  queue = record { counted = refl; headed = λ h. refl; tailed = λ h. refl; linked = tt };
  nodup = (refl, tt);
  ready = λ p h. (let e : p ≡ 2 = ground arith in rw e refl);
  running = runs;
  exclusive = own;
}
  where
    runs : (c p : ℕ) → runs_on c ≡ some p → (blocks p).state ≡ process_running
    runs zero p h = rw (sym (some_inj.0 h)) refl
    runs (suc zero) p h = rw (sym (some_inj.0 h)) refl
    runs (suc (suc c)) p h = absurd (ground (arith, h))

    own : (c d p : ℕ) → runs_on c ≡ some p → runs_on d ≡ some p → c ≡ d
    own zero zero p h k = refl
    own zero (suc zero) p h k = absurd (ground (arith, some_inj.0 h, some_inj.0 k))
    own (suc zero) zero p h k = absurd (ground (arith, some_inj.0 h, some_inj.0 k))
    own (suc zero) (suc zero) p h k = refl
    own (suc (suc c)) d p h k = absurd (ground (arith, h))
    own zero (suc (suc d)) p h k = absurd (ground (arith, k))
    own (suc zero) (suc (suc d)) p h k = absurd (ground (arith, k))

small-AllBusy : AllBusy small
small-AllBusy zero h e = ground (arith, e)
small-AllBusy (suc zero) h e = ground (arith, e)
small-AllBusy (suc (suc j)) h e = absurd (omega arith)

small-IsLowest : IsLowest small 0 0
small-IsLowest = record {
  in_range = omega arith;
  runs = refl;
  smallest = least;
  first = λ j r h e. absurd (omega arith);
}
  where
    least : (j r : ℕ) → j < 2 → runs_on j ≡ some r → 3 ≤ (blocks r).static_priority
    least zero r h e = rw (sym (some_inj.0 e)) (omega arith)
    least (suc zero) r h e = rw (sym (some_inj.0 e)) (omega arith)
    least (suc (suc j)) r h e = absurd (omega arith)

-- With a third CPU, which is idle.
abbrev relaxed : Os
relaxed = record small { cpu_count = 3 }

relaxed-IsOs : IsOs relaxed (2 ∷ [])
relaxed-IsOs = record {
  queue = small-IsOs.queue;
  nodup = small-IsOs.nodup;
  ready = small-IsOs.ready;
  running = small-IsOs.running;
  exclusive = small-IsOs.exclusive;
}

enqueue_ready-IsQueue_example :
    (os' : Os) × (enqueue_ready 3 small ≡ some os')
    × IsQueue os'.pcbs os'.queue (2 ∷ 3 ∷ [])
    × Kept small os'
enqueue_ready-IsQueue_example =
    enqueue_ready-IsQueue small (2 ∷ []) 3 small-IsOs.queue small-IsOs.nodup

preempt-Scheduled_example :
    (os' : Os) × (preempt 0 small ≡ some os') × IsOs os' (0 ∷ []) × Switched 0 small (some 2) os'
preempt-Scheduled_example = preempt-Scheduled 0 small (2 ∷ []) 0 small-IsOs refl

yield-terminate_example :
    Gives 1 small (2 ∷ []) 1 process_waiting (yield 1 small)
    × Gives 1 small (2 ∷ []) 1 process_terminated (terminate 1 small)
yield-terminate_example = yield-terminate 1 small (2 ∷ []) 1 small-IsOs refl

waits : (small.pcbs 3).state ≢ process_ready
waits e = ground (arith, e)

stopped : (small.pcbs 3).state ≢ process_running
stopped e = ground (arith, e)

wake_up-IsOs_example :
    (os' : Os) × (wake_up 3 small ≡ some os')
    × IsOs os' (2 ∷ 3 ∷ [])
    × (os'.current ≡ small.current)
wake_up-IsOs_example = wake_up-IsOs small (2 ∷ []) 3 small-IsOs waits stopped

wake_up-Preempts_example : (os' : Os) × (wake_up 3 small ≡ some os') × Preempts small 3 0 0 os'
wake_up-Preempts_example =
    wake_up-Preempts small (2 ∷ []) 3 0 0 small-IsOs waits refl small-AllBusy small-IsLowest
      (omega arith)

-- Three processes in a queue, the second one with the highest priority.
abbrev queued : ℕ → Pcb
queued zero = record { static_priority = 3; state = process_ready; next = some 1 }
queued (suc zero) = record { static_priority = 5; state = process_ready; next = some 2 }
queued (suc (suc n)) = record { static_priority = 4; state = process_ready; next = none }

abbrev waiting : Os
waiting = record small { pcbs = queued; queue = record { head = some 0; tail = some 2; count = 3 } }

chosen : Option (Option ℕ × Os) → Option ℕ
chosen none = none
chosen (some (p, os)) = p

dequeue_priority_ready-waiting : chosen (dequeue_priority_ready 3 waiting) ≡ some 1
unfolding program dequeue_priority_ready unlink before points_to highest_from chosen
dequeue_priority_ready-waiting = refl

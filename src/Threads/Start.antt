-- ===== src/Threads/Start.antt =====
-- The start of the simulation: `start_simulator` of project-6/prj6/os-sim.c.
use da_bus.Base.{ℕ, ◌-◌, ◌^◌, Option, none, some, [], Bool, ltb, if◌then◌else◌, get_or}
use da_bus.Scheduler.{Pcb, process_new, ReadyQueue, cpu_idle}
use da_bus.Simulator.Processes.{Process, processes}
use da_bus.Threads.{Sim, rounding, looping}

-- An entry of `processes`, all of whose states are PROCESS_NEW. There are no processes behind it.
unfoldable pub process_at : ℕ → Process
process_at p = get_or processes p (record { static_priority = 0; ops = [] })

unfoldable pub initial_pcbs : ℕ → Pcb
initial_pcbs p = record {
  static_priority = (process_at p).static_priority;
  state = process_new;
  next = none;
}

-- The state behind the initialization of `start_simulator`: `current` and `queue` are what `main` of
-- student.c has allocated.
unfoldable pub started : ℕ → Bool → ℕ → (ℕ → Option ℕ) → ReadyQueue → Sim
started cpu_count static_priority_flag time_slice current queue = record {
  os = record {
    pcbs = initial_pcbs;
    queue = queue;
    current = current;
    cpu_count = cpu_count;
    static_priority_flag = static_priority_flag;
    time_slice = time_slice;
    cpu_data = λ c. record { current = none; state = cpu_idle; preemption_timer = 2 ^ 32 - 1 };
    context_switches = 0;
    processes_terminated = 0;
  };
  ops = λ p. (process_at p).ops;
  io_queue = [];
  simulator_time = 0;
  processes_created = 0;
  counters = record { ready_counter = 0; running_counter = 0; waiting_counter = 0 };
  supervisor = rounding;
  threads = λ c. looping;
}

-- Up to the start of the threads, or none for exit(-1).
unfoldable pub start_simulator : ℕ → Bool → ℕ → (ℕ → Option ℕ) → ReadyQueue → Option Sim
start_simulator cpu_count static_priority_flag time_slice current queue =
    let s = started cpu_count static_priority_flag time_slice current queue in
    if ltb cpu_count 1 then none else if ltb 16 cpu_count then none else some s

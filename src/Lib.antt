-- ===== src/Lib.antt =====
-- Verification library for the C programs of the systems projects in this repository.
--
-- The programs are independent of each other; each has a module with its data and its operations,
-- and child modules with what is proved of them. Base holds what they share: Boolean tests and list
-- functions on the native numbers (Base.Tests, Base.Lists) and masks of bits (Base.Bits).
--
-- Cache: the cache simulator, project-5/prj5/cachesim.c, cachesim.h, and the loop of
-- cachesim_driver.c. The state is `Cache` (cache_t) and `CacheStats`; `cache_init`, `index_decode`,
-- `tag_decode`, `block_search`, `find_invalid_block`, `find_lru_block`, `update_lru`, `cache_hit`,
-- `cache_miss` and `cache_access` are the C functions of these names, `bubble`, `search_from`,
-- `invalid_from`, `choose_victim`, `count_miss` and `count_access` are loops or parts of them, and
-- `run_trace` is the loop of the driver. Numbers of 32 and 64 bits are their patterns, with the
-- wrap-around written out. A supported geometry (`IsGeometry`) has S at most 30, S below C, C at
-- most S + 30 and B + S at most C; the driver's defaults are one. A line of the cache is the list
-- of its tags, the oldest use first (`resident_tags`), and the reference is the trace itself:
-- `recency` keeps the last occurrence of each tag. The two averages of type double and the freeing
-- in `cache_cleanup` are not modelled.
--
-- Rtp: the reliable transport, project-7/prj7/rtp.c and rtp.h. `packetize`, `checksum`,
-- `rtp_send_message`, `rtp_receive_message`, `resize_buffer`, `build_ack` and `build_nack` are the
-- C functions; `recvfrom` is the list of what it returns, with `none` for -1, and what goes out by
-- `sendto` is in the results (`Sending`, `Receiving`). The receiver's array is a list, so that a
-- read or write outside it is seen, and an int that overflows (`crashed`). A channel is a list of
-- trips: for each packet those transmissions that arrive damaged, and then a good one. The results
-- on the receiver ask for at most 2 ^ 30 bytes. Sockets and client.c are not modelled.
--
-- Scheduler: project-6/prj6/student.c with the control blocks, `context_switch` and `force_preempt`
-- of project-6/prj6/os-sim.c. The ready queue is linked through the control blocks, which are a
-- function from the index of a process; `IsQueue` says which list a queue stands for. The handlers
-- `idle`, `preempt`, `yield`, `terminate` and `wake_up` are one step each; NULL pointers that are
-- used give `none`. `cpu_thread_select` and `cpu_thread_call` are the two halves of a round of
-- `simulator_cpu_thread` in os-sim.c. The invariant `IsOs` says that the queued processes are
-- different and READY, and that each CPU runs a RUNNING process of its own or none.
-- `dequeue_priority_ready`, which nothing calls, is in Scheduler.Priority; its walks take a number
-- of rounds, and one for each process of the queue is enough for its search. The pthread wrappers
-- are left out, and the mutexes of student.c with them, since a handler is one step.
--
-- Simulator: the operations of the processes and the I/O queue of project-6/prj6/os-sim.c, and the
-- tables of project-6/prj6/process.c (Simulator.Processes). `simulate_process` is one tick of a
-- process on a CPU, with `next_operation` for the end of a burst; `submit_io_request` and
-- `simulate_io` are the C functions. `run_alone` and `io_rounds` run them over many rounds; `work`
-- and `io_work` are the rounds they are given, and that they are enough is part of the results.
-- Simulator.Programs follows an operation list that ends with OP_TERMINATE.
--
-- Threads: the supervisor and the CPU threads of project-6/prj6/os-sim.c over the handlers of
-- student.c, as a state machine. `Sim` has the globals, the places of the threads and of the
-- supervisor; `supervise` and `cpu_thread` are one step each, what a thread does while it has
-- `simulator_mutex` or one call of a handler while no other thread has it. A wait for a condition
-- is a place, left by the signal of the other side; spurious wake-ups do not happen. A run of
-- `SerialStep`s is serial: any thread that can have the mutex goes next, and a handler runs to its
-- end before another thread moves, though the program lets the handlers of different CPUs overlap
-- (Threads.Overlap). The supervisor simulates a process only when the thread of its CPU is in its
-- wait (`Prompt`); Threads.Race has a run without that. The invariant `IsSim` joins that of the
-- scheduler with the places of the threads, the I/O queue and the operations, and `IsSignalled`
-- says that who is waited for comes, and `IsBursting` that a process which can be simulated is at a
-- CPU operation. Threads.Start has `start_simulator`, and Threads.Main `main` of student.c with its
-- arguments; `malloc` and what fresh memory holds are parameters, and `main` has one round for each
-- argument. Output is left out: of `print_gantt_line` the counters are modelled, of
-- `print_final_stats` nothing.
--
-- Irwl: the inverted readers-writers lock of project-6/prj6/os-sim.c with the threads that use it,
-- at most 17, each step while it has the mutex of the lock; the one reader is `print_gantt_line`.
-- In Threads a handler and the counting are single steps, so that the lock does not appear there.
--
-- Assembler: the LC-2200 assembler, project-2/prj2/Assembly/assemble32.c. A string is the list of
-- its bytes, an int its 32-bit pattern, and the messages to stderr are a list of complaints, so
-- that a pass succeeds when the list is empty. Assembler.Lexer has `getLine` and `lexer`, Symbols
-- the table of labels, Numbers `hextoi`, `is_numeric`, `check_offset` and `token_to_number`, Table
-- the instructions and registers, Encode the constructors and the cases of the switch, and Passes
-- `first_pass`, `second_pass`, the output and `main` (`assemble`). A token is a word or one of the
-- four shared delimiters. `get_lines` has a round for each byte of the file, of which every line
-- takes one at least. `atoi` is that of the GNU C library, `malloc` succeeds, and the buffer of the
-- output name is long enough. The texts of the messages and `symbol_dump` are not modelled.
--
-- Memory: the virtual memory simulator, project-4/prj4. `Machine` holds the globals, and `Config`
-- the options page_size, mem_size, tlb_size and max_jobs. Memory has the types, the swap file and
-- the TLB's clearing (simulator-src/swapfile.c and tlb.c), Memory.Paging the lookups of student-src
-- (tlb-lookup.c, page-lookup.c, page-fault.c, page-replacement.c), and Memory.Commands memory.c,
-- process.c, the commands of sim.c and the sum of emat.c. A pointer to a page table is its place
-- on a heap of page tables, so that a table that `proc_fork` replaces stays as it is. The clock
-- sweep has a round for each frame. The use of a NULL pointer and a failed assert are seen in
-- `faulted`, with which a command gives `none`; a write behind the TLB is seen in `overrun`. The
-- results ask for a page, a frame and a TLB entry at least and for a memory below 2 ^ 32 bytes
-- (`IsConfig`); a machine in order is one with `IsMachine`.
-- Memory.Options has `sim_setoptions` over what getopt returns, and Memory.Program the words that
-- strtok cuts out of a line, the commands they are, and `main` over the lines that fgets gives. A
-- string is the list of its bytes. Names, printing and freeing are not modelled.
--
-- All other loops are structural recursion over a list, or over the number of rounds that the
-- source's bound gives, so that no fuel can run out.
--
-- Not modelled: the Clojure code, circuits and assembly programs.
pub mod Assembler
pub mod Base
pub mod Cache
pub mod Irwl
pub mod Memory
pub mod Rtp
pub mod Scheduler
pub mod Simulator
pub mod Threads

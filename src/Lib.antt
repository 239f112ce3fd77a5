-- ===== src/Lib.antt =====
-- A verification library of the kernel: its physical frame allocator and page tables, the start of its
-- CPUs, the creation of threads, its round-robin scheduler with load balancing between CPUs and the
-- interrupt that drives it, its spin lock, and its framebuffer console.
--
-- How the parts work together. The boot code fills the frame allocator from the memory map; threads,
-- their stacks, page tables and the per-CPU pages take frames from it. Each CPU sets up its page and its
-- descriptor tables, programs its timer and goes on as its idle thread. It has a ready queue in its TLS
-- page. A timer interrupt saves the thread that runs and takes the next one from that queue, and now and
-- then evens out two CPUs' queues. All parts print through one terminal, which draws characters into the
-- framebuffer.
--
-- Shared: Boolean tests, lists and tables over the native numbers, 64-bit words with their wrap-around
-- written out, and `Outcome`, the result of code that can panic. The kernel is built in the release
-- profile, so `usize` arithmetic wraps, while an index out of range, `unwrap`, `expect` and `assert!`
-- panic.
--
-- Memory.Addr: the address types of the `x86_64` package, taken as a parameter with the laws that its
--   documentation states.
-- Memory.Frame: src/memory/frame.rs (`Frame`, `FrameRange`, `FrameAllocError`).
-- Memory.Bitmap: `BitmapView` of src/memory/bitmap.rs. Bits and Runs say what single bits and runs do.
-- Memory.Region: `MemoryRegion` of src/memory/bitmap.rs. `scan` is the loop of `alloc`, by the bits left,
--   and `claim` its body once a run is long enough. Region.Scan compares the loop with the search for
--   the first free run, and Region.Reference with one that tries every start; Region.Alloc and Region.Free
--   state the operations.
-- Memory.Allocator: `BitmapFrameAllocator` of src/memory/bitmap.rs and the default methods of the trait
--   `FrameAllocator`. The guarded `Option<Inner>` is a `Slot`. Allocator.Clients runs sequences of
--   requests and returns against it; this client is no code of the kernel.
-- Memory.Boot: `BitmapFrameAllocator::init` of src/memory/bitmap.rs, with the memory map as a list of
--   entries, and the bytes of memory and the size of `MemoryRegion` as parameters. Its outer loop returns
--   from the body of the first entry with room, so it is a search, `find_host`, and that body, `set_up`.
--   `init` hands on where it wrote each region and its bitmap; `spans` are all of these writes.
-- Memory.Facade: the functions of src/memory/mod.rs over the allocator and the offset together.
-- Memory.Pages: single frames seen through the direct map, as src/arch/x86_64 and src/sched/thread.rs take
--   them. Memory.Paging: `map_page` of src/memory/vmm.rs, with the package's page table entries as a
--   parameter. Paging.Tables gives each table a level; `page_of` in Paging.Steps is the processor's walk.
-- Memory.Translate: `phys_to_virt` and `virt_to_phys` of src/memory/mod.rs.
-- Sched.Queue: `Queue` of src/sched/thread.rs. Queue.Fifo is the bounded list that it refines.
-- Arch.Machine, Arch.Startup: `setup_tls` and `current_cpu_id` of src/arch/x86_64/cpu.rs, gdt.rs and
--   idt.rs beside it, and `common_entry` of init.rs. A CPU's registers and the objects on its pages are a
--   `Machine`, which keeps the objects of each type by address; what the build fixes is a `Build`.
-- Arch.Lapic: src/arch/x86_64/lapic.rs, with the APIC's registers by address.
-- Arch.Words: memory as 64-bit words at their addresses, with `push` and the writing of structs.
-- Sched.Registers: `CpuRegsOnStack` of src/sched/thread.rs, and the saving and restoring of registers in
--   the assembly of src/sched/mod.rs. Sched.Interrupt: `timer_interrupt` and `force_switch_to_idle` of
--   that file. What the handler's calls leave on the stack is a parameter.
-- Sched.Spawn: `Stack`, `ready`, `spawn_raw` and `new_idle` of src/sched/thread.rs. Sched.Closure: `spawn`
--   and `thread_trampoline` of that file, with a closure as the words that it captures.
-- Sched.Thread, Sched.Table: the thread records and `ThreadTable` of src/sched/thread.rs.
-- Sched.Switch: `switch` of src/sched/mod.rs. Sched.Balance: `do_load_balance` of the same file, with the
--   scheduling states of all threads as a store by address. Sched.Timer: `timer_handler` and
--   `maybe_load_balance` of the same file, with the random number as an argument.
-- Arch.Cpu: `TlsData`, `CPUS` and `get_cpu_tls` of src/arch/x86_64/cpu.rs.
-- Sync.Spinlock: src/sync/spinlock.rs, with the CPUs' steps on the lock interleaved by a schedule.
-- Sched.Locking: the locks that src/sched, the frame allocator and `log` take, as sequences of locks and
--   drops that CPUs interleave. Locking.Order ranks the locks; a timer interrupt stands between two
--   sections, since a lock turns interrupts off. Locking.Cost counts the steps left to do.
-- Console.Font: src/dev/console/font.rs. Console.Framebuffer, Console.Theme, Console.Terminal:
--   src/dev/console/terminal.rs, with the boot loader's framebuffer as a record of its sizes and pixels.
-- Console.Log: `init` and `log` of src/dev/console/mod.rs, with the bytes of a message as an argument.
-- Util: src/util.rs, with the halves of the counter that `rdtsc` leaves as arguments.
-- Panic: src/panic.rs, with the panic's place and message as bytes, and the value of the terminal's lock
--   flag in each round of the loop of src/sync/spinlock.rs, by the number of rounds.
-- Boot: the loop of `kmain` in src/main.rs, which chooses the CPU that goes on and starts the others.
-- Boot.Main: `kmain` as a whole, with the boot loader's answers to src/boot/requests.rs as a record.
--   How the compiler lays out the allocator's metadata is a parameter, `written`, which changes only the
--   words that `init` writes. Main.Tables follows the boot loader's page tables through the taking over
--   of memory, and Main.Prepare
--   the calls before `common_entry`.
--
-- Every loop is structural: on the bits, rows or bytes left, or on the list of regions. The counter of a
-- `for` loop over a range is the number of rounds left, which the range gives, so no fuel is chosen. The
-- rounds in which the CPUs of Sched.Locking take turns are as many as the steps that they have to do. The
-- bound of 2^23 regions on the frame counts keeps their sums below 2^64.
--
-- Elsewhere a lock is modelled as the state that it guards: an operation that holds the lock throughout
-- is one step, as mutual exclusion allows.
--
-- Not modelled: the formatting of numbers, the messages that `memory::init` prints, and the exception
-- handlers, which print and halt.
pub mod Shared
pub mod Memory
pub mod Arch
pub mod Boot
pub mod Console
pub mod Panic
pub mod Sched
pub mod Sync
pub mod Util

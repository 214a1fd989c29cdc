-- ===== src/Lib.antt =====
-- mkOS, a small kernel for 64-bit ARM, with its boot loader.
--
-- The parts that are modelled, and how they work together:
--   Page      kernel/core/page.c. Free memory as blocks of 2^order pages in one list per order.
--             `Pool` is the file's static variables. `page_alloc` splits larger blocks down
--             (`split_zone`), takes one and gives the tail back; `page_free` adds blocks.
--             Page/Client and Page/Holding are its callers, with the runs that they hold.
--   Kmalloc   kernel/lib/kmalloc.c. Small pieces out of chunks, each of them pages of Page.
--             Kmalloc/Apart is about chunks and free pages, Kmalloc/Held about chunks among the runs
--             that others hold, Init/Pieces about all pieces.
--   Vfs       kernel/core/vfs.c. The files that `parse_flash` finds in flash, and descriptors;
--             Vfs/Session is one descriptor from its opening to its closing. Vfs/Images and Found are
--             about the images that flash begins with.
--   Kernel    the state that the parts share: `Kernel` is the pool, the chunks, the tables of files
--             with all memory, the tasks (kernel/include/task.h, cpu.h) and the serial line.
--             Kernel/Parts lifts a part's operation to it.
--   Task      kernel/core/task.c. The table of tasks, the choice of the next one (`task_next`),
--             their beginning (Task/Load) and end (Task/Exit). Task/Load/Launch is about a program
--             that is there, by way of Fetch and Finish, which follow `task_load` through its calls;
--             Again, Twice and Create are about the two calls of it in `task_create`.
--   Syscalls  kernel/core/syscalls.c. A task's calls, which go to Task, Page and Console.
--             Syscalls/Mmap is the call that asks for pages, Syscalls/Leave the one that ends a task.
--   Gic       kernel/drivers/gic.c. The interrupt controller, over any kind of handler; the values
--             read from it are given and the writes to it are a trace.
--   Timer     kernel/drivers/timer.c. Its interrupt moves to the next task. `Machine` is the kernel
--             with the timer.
--   Trap      kernel/core/trap.c. Exceptions and interrupts, which go to Syscalls and Gic.
--             Trap/Context has the lines of the dump of a context, Trap/Svc the numbers of calls, and
--             Trap/Preempt what a run of timer interrupts does.
--   User      userspace/libc/stdio.c and crt1.c, userspace/include/syscall.h, userspace/app1/app.c.
--             A program prints by a system call, which Trap and Syscalls take.
--   Mm        kernel/core/mm.c. The translation tables and the registers that `mmu_init` sets, and
--             the dump of both; Mm/Prints and Depth are about the dump of any tables. Mm/Walk is what the processor does with them: the translation of an
--             address by the ARMv8-A architecture, which Mm/Space compares with the kernel's map.
--   Init      kernel/init.c. `init_kernel` sets the parts up in order: Page, Kmalloc, Mm, Vfs, Gic,
--             Timer, Task. `System` is the whole machine. Init/Bootable says what a board with a
--             program in flash is, and Init/Program follows `init_kernel` to its end on one.
--   Boot      boot/main.c. The boot loader's checks of the kernel's image; Boot/Report has what it
--             prints.
--   Elf       kernel/lib/elf.c. A program is loaded into pages of Page: Elf/Program says what one
--             is, Elf/Load what is done with it. Elf/Describe has what is printed about headers.
--   Console   kernel/lib/kern_console.c. Strings and numbers on the serial line.
--   Printk    kernel/lib/printk.c and printk.h. Formatted messages, by way of Console.
--   Image     the header of an image (kernel/include/u-boot-image.h, boot/image.h), as the bytes
--             of memory give it.
--   Memory    the byte routines kernel/lib/memcpy.c, memset.c, memcmp.c, strncmp.c and strlen.c.
--   Bitops    kernel/lib/bitops.c and ntohl.c.
--   Layout    the page masks of kernel/include/page.h and the memory map of config.h.
--   Base      shared types and lemmas: runs that end, panic, fault or leave their rounds (Run),
--             machine words (Word), bit masks as arithmetic (Bits), lists, tests, integers.
--   Fixtures  states that the tests of several parts share.
--
-- How code corresponds to definitions. A static variable is a field of the file's record, and an
-- operation is a function of the same name from the record to a `Run`: `ok` with a result and a
-- new record, `panic` with the message that the code stops with, or `fault` for an access that C
-- leaves undefined. An `unsigned` is a number below 2^32 and a pointer one below 2^64, with
-- wrap-around written out; a linked list is a list, and a descriptor's place in its array is kept.
-- Log messages are left out, but for what Mm, Elf/Describe, Boot/Report, Trap/Context and Timer
-- print to show their data: each such line is a value with the arguments of the call.
--
-- Loops. Lists and counted loops are structural recursion. `add_blocks` clears the topmost one of
-- a 32-bit count in each round, so 33 rounds are enough. `parse_flash` calls itself behind each
-- file it lists and the table has 64 entries, so 65 rounds are enough.
-- `gic_handle_irq` runs over the values still to be read from the controller, which reports that
-- nothing is pending behind them. `puts` runs on rounds that are given, since a string without an
-- end is printed for ever. `printk` gives it 1024, the room of its buffer. `dump_table`
-- recurs into the tables that it finds: its shift is undefined in C from level 5 on, so a depth of
-- 6 is enough. `gic_do` waits for an interrupt, and has as many rounds as values are given that
-- it reads.
--
-- Not modelled: assembly and the macros for processor registers (kernel/entry.S, exception.S,
-- userspace/libc/crt0.S, kernel/include/arch.h, arch_helpers.h, asm.h), of which the effect on the
-- registers that the C code writes is part of Mm and Timer. The formatting code of
-- kernel/lib_3rdparty belongs to other projects: `vsnprintf` is the parameter `Vsnprintf`, by its
-- documented behaviour. kernel/core/vma.c is empty. `init_kernel` loads two words whose values it
-- only prints; these loads are left out. The records of chunks and free pages, which the code keeps
-- inside the memory they are about, are not part of the byte memory.
pub mod Base
pub mod Bitops
pub mod Layout
pub mod Page
pub mod Memory
pub mod Image
pub mod Vfs
pub mod Kmalloc
pub mod Kernel
pub mod Console
pub mod Printk
pub mod Elf
pub mod Task
pub mod Syscalls
pub mod Gic
pub mod Timer
pub mod Trap
pub mod User
pub mod Mm
pub mod Boot
pub mod Init
pub mod Fixtures

-- ===== src/Lib.antt =====
-- deva: the core of an i686 kernel, modelled and verified.
--
-- The kernel is a set of C files over static variables. A component is a module here: its static
-- variables are a record, a function of the source is a function that takes the record and returns
-- the new one beside its result, and the loops are recursions. The proofs about a component stand in
-- the modules below its own, with its runs and examples in a module Tests.
--
--   Prelude   Boolean tests, lists, arrays as functions, the bit operations, integers.
--   Task      kernel/drivers/task/task.c with kernel/include/task/task.h and the effect of
--             kernel/arch/i686/context_switch.asm: task_alloc, kill_task, schedule, unblock_waiter,
--             find_task_by_pid, init_multitasking. Ring is the invariant of the circular list; Alloc,
--             Kill, Schedule and Wake take one operation each.
--   Paging    kernel/drivers/paging/paging.c: the frame bitmap (Frames, Owners), map_page and
--             get_physical (Tables, Map), create_page_directory and reserve_range (Boot); also
--             paging_init as a definition.
--   Heap      kernel/drivers/mm/mm.c over the paging: the free list and its walks (FreeList, Found), the
--             invariant of the blocks (Blocks), heap_grow (Grow), malloc (Malloc, with a split or a
--             whole block), free (Free, with or without a merge), both together (Cycle), and the
--             requests that fail (Errors).
--   Ata       kernel/drivers/ata/ata.c over an interface for the ports: detection and selection
--             (Identify), a drive behind the ports (Disk), the commands and the words of a sector
--             (Protocol, Words, Sector), the disk for the file system (Reliable), failures (Errors).
--   Elf       kernel/drivers/elf/elf.c over the paging: bytes of physical memory (Bytes) and what is
--             copied into one page (Page). Task.Spawn has create_process and spawn_elf, which use it, and
--             proves what stands on the stack of a new program (Frame, Argv, Stack).
--   Syscall   kernel/arch/i686/syscall.c: the calls exit (Exit), getpid, yield, waitpid, exec (Exec) and
--             spawn on the tasks.
--   Interrupts  kernel/arch/i686/idt.c and kernel/drivers/gdt/gdt.c: the gates through the segments
--             (Gates); kernel/arch/i686/irq.c (Irq); the numbers that kernel/arch/i686/isr.c prints
--             (Exception).
--   Vfs       kernel/drivers/vfs/vfs.c over an interface for the file system: sequences of calls (Calls),
--             and kernel/drivers/fat32/fat32.c behind the interface (Fat).
--   Kbd       kernel/drivers/kbd/kbd.c: kbd_push_key and kbd_get_key (Ring), keyboard_handler
--             (Decode), and both users of the ring together (Stream).
--   Video     kernel/drivers/framebuffer/framebuffer.c: pixels and rectangles (Clip) and scrolling.
--   Tty       kernel/drivers/term/tty.c over an interface for its output: the cursor (Cursor), the line
--             editor (Line) and, with kernel/drivers/term/tty_fb.c and kernel/drivers/text/text.c, the
--             terminal on the framebuffer (Screen); kernel/drivers/term/term.c and the system calls
--             that write (Term).
--   Fat32     kernel/drivers/fat32/fat32.c over an interface for the disk: the boot sector and clusters; in
--             Fat the file allocation table, with a disk that works (Device), the cache of one sector
--             (Cache), allocation (Alloc) and chains (Chain); in Names the 8.3 names; in Dir
--             the search of a directory, its slots and new entries; in Path the paths; in File the calls:
--             reading (Read), writing (Write), the recursive delete (Remove) and stat (Info).
--   Klib      kernel/klib/string/string.c: the memory functions (Mem) and the string functions (Str).
--
-- How they meet: the keyboard interrupt fills the ring that the terminal drains; the terminal draws
-- through its interface on the framebuffer; the file system reads and writes sectors of the disk driver,
-- which Ata.Reliable puts behind its interface; the heap maps the frames that paging hands out; the
-- timer interrupt calls schedule; the tasks carry page directories that paging makes, and spawn_elf
-- fills them through the loader with a file that the VFS reads; the system calls act on the tasks and
-- on the terminal; the string functions serve all.
--
-- Numbers are natural numbers with the wrap-around of the C types written out where a value can pass
-- them. A pointer into byte memory is a number, and memory a function from numbers to bytes; memory
-- that holds page tables is a function to 32-bit words. An array of static size is a function of the
-- index, and theorems state that the indices stay in range.
--
-- Fuel: a loop that runs to a NUL has fuel above the length of the string as a hypothesis; the digit
-- loop of itoa has 32 rounds, more than the ten digits of an int, and its reversal as many; a walk
-- round the tasks has 8, the size of the table; a loop over pages has 2^20, the pages of the address
-- space; freeing a chain has more fuel than the chain has clusters. The other walks along
-- a chain answer `none` without fuel, as the code runs on for ever on a chain that bites its tail; a
-- path has a round for each character, and writing one for each byte. The fuel of malloc and free
-- bounds the walk along the free list, and more than the list is long is enough. The counters of
-- the disk driver are those of the code. A segment of a program has at most 2^20 pages, which is the
-- fuel of the loop over them.
--
-- Not modelled: the assembly that loads CR0, CR3 and the descriptor tables and saves registers, and
-- the parts that the manifest lists as such. The byte that the keyboard port
-- delivers is an argument.
pub mod Prelude
pub mod Ata
pub mod Fat32
pub mod Heap
pub mod Kbd
pub mod Klib
pub mod Paging
pub mod Task
pub mod Tty
pub mod Vfs
pub mod Video
pub mod Interrupts
pub mod Elf
pub mod Syscall

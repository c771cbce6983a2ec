-- ===== src/Lib.antt =====
-- XenonOS, a 32-bit hobby kernel in C (src/): a verification library.
--
-- The kernel boots through GRUB, reads the Multiboot memory map, hands out physical frames and
-- maps them, keeps a heap on them, switches between threads in a ring, and offers a text shell and
-- a small window system. The keyboard interrupt feeds the shell or, once graphics mode is on, the
-- focused window; a spinlock guards the console and another the ring. Each part has a module with
-- the name of the part:
--
--   Base        words and bits shared by all: uint32_t arithmetic, |, & and ~ read bit by bit, lists
--   Memory      src/utils/string.c: memcpy, memset and memcmp on bytes; words of four bytes
--   Text        src/utils/string.c: strcmp, strlen, itoa and itoa_hex
--   Multiboot   src/memory/multiboot.c, multiboot.h: the tag stream, over memory as bytes
--   MemoryInfo  src/memory/memory.c: the size of the memory, from the same tags
--   Pmm         src/memory/pmm.c: the bitmap of frames, pmm_initialize, pmm_alloc, pmm_free
--   Paging      src/memory/paging.c: the page tables; Paging.Mmu is the processor's reading of them
--   Slab        src/memory/slab.c: caches of equal objects, as linked lists in memory
--   Heap        src/memory/heap.c: kmalloc and kfree
--   Spinlock    src/tasks/spinlock.c: the lock, with cores that interleave at its asm blocks
--   Scheduler   src/tasks/scheduler.c and thread_sleep of src/tasks/thread.c: the ring of threads
--   Threads     src/tasks/thread.c, and scheduler_initialize: threads and their stacks
--   Timer       src/cpu/pit.c: the tick counter
--   Interrupts  src/cpu/interrupts.c: the gates, the controllers and the exception handlers
--   Tss         src/cpu/tss.c: the descriptors and the segments of the double fault task
--   Cpu         src/cpu/cpu.c: vendor, family and model
--   Pci         src/io/pci.c: the search for the display controller
--   Serial      src/io/serial.c: the serial port and its formatted write
--   Framebuffer src/io/framebuffer.c: the mapping of the screen, and its off-screen buffer
--   Graphics    src/gui/graphics.c: pixels, rectangles and text in that buffer
--   Terminal    src/io/terminal.c: the VGA console, its colours, its cursor and its formatted writes
--   Keyboard    src/io/keyboard.c: scan codes, and the line that is typed
--   Gui         src/gui/gui.c: the windows, their focus and their frames
--   Shell       src/shell/commands.c: the commands, and the windows, with what they draw
--   Suites      src/tests/test.c: the runs of the test suites, and their report
--   Kernel      src/kernel.c: kmain, which calls the initializers of the others in turn
--
-- Paging takes its tables from Pmm. Slab takes its pages from Pmm and maps them by Paging; Heap
-- stands on Slab, and for large blocks on Pmm and Paging; Threads takes its structures from Slab,
-- its stacks from Pmm and Paging, and hands threads to Scheduler. Framebuffer finds its tag by
-- Multiboot or its device by Pci, maps it by Paging and takes its buffer from Heap. Interrupts
-- prints through Terminal and calls Timer and Scheduler. Shell prints through Terminal, by the
-- calls of Terminal.Cursor, opens windows of Gui, and runs the tests of Suites; Keyboard names the calls of Terminal, Gui
-- and Shell as effects, and Gui those of the drawing functions.
--
-- A function of the source is a function of the same name on the record of the static variables of
-- its file; a loop is a function of its own that recurs on the rounds left. C arrays are functions
-- of the index. A C string is the list of its bytes before the NUL. Sums that can wrap are taken
-- modulo 2 ^ 32 or 2 ^ 64. The linker's symbols, the addresses of static variables, the answers of
-- the hardware and the port that is read are arguments; port writes, drawing calls and invlpg are
-- logged, the newest first.
--
-- Memory: Slab, Heap and Framebuffer work on byte memory under the addresses that the kernel uses,
-- and their headers and links are 32-bit words in it. Slab.Layout says when memory holds a cache:
-- each slab of the list has a free list through its free objects, the free and the live objects
-- fill its capacity, and its frame is one that Pmm has given out. Pointers to threads and windows
-- are numbers, and their fields are a function of the pointer.
--
-- Fuel: the walks over data of the boot loader, over the slabs of a cache, and the walk of
-- scheduler_yield, take fuel, and `none` is a walk that has not ended; their theorems ask for fuel
-- above the number of tags, entries, slabs or threads, and show that it is enough. The digit loop
-- of Text takes the value itself as fuel. The wait for the serial port takes the answers of its
-- status register, and ends if enough of them are ready.
--
-- Locks: the functions of Terminal and Scheduler run under a spinlock from their first step to
-- their last, so a call is one step of the model (thread_sleep first writes to its own thread);
-- the lock itself is the subject of Spinlock. A formatted write with a missing or mistyped
-- argument, or with a '%' at the end of the format, has no meaning in C, and is `none`.
--
-- Not modelled: page faults, so an access to a page without a translation is an access to memory
-- like any other, also the writes to a stack that could not be mapped; the assembly, with the switch
-- of stacks and the stubs of the interrupts; the endless loops that halt the processor; and the test
-- functions themselves, whose outcomes are arguments.
pub mod Base
pub mod Memory
pub mod Multiboot
pub mod MemoryInfo
pub mod Pmm
pub mod Paging
pub mod Slab
pub mod Heap
pub mod Text
pub mod Terminal
pub mod Spinlock
pub mod Scheduler
pub mod Threads
pub mod Timer
pub mod Interrupts
pub mod Tss
pub mod Cpu
pub mod Pci
pub mod Serial
pub mod Framebuffer
pub mod Graphics
pub mod Keyboard
pub mod Shell
pub mod Gui
pub mod Kernel
pub mod Suites

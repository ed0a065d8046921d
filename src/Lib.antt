-- ===== src/Lib.antt =====
-- JKOS, a small x86 kernel in C++: the parts of it that keep state of their own, as functions on
-- values, and the theorems that make them correct.
--
-- Rbt is src/include/lib/rbtree.h, the red-black tree that the kernel heap and the task table
-- are built on: rotate, insert, remove_bottom, erase, find_ge, find_le, walk and clear, as the
-- kernel builds the template, without RBT_DEBUG and RBT_SIZE. A node pointer is the node with
-- the way back to the root; the parent field of the shared NIL node, which the code writes and
-- reads only as the way back from a removed node, is left out. The climb of remove_bottom takes
-- fuel two more than the length of that way, which the theorem on erase shows to be enough.
--
-- Page is src/core/page.cpp with src/include/page.h: page table entries, the stack of free
-- frames and the reference counts, the page fault handler with lazy allocation and copy-on-
-- write, the loop of clone_table, and the interval operations of the current page directory.
-- Page/Init is init_frames, on the list of the regions in the map of the boot loader. The words
-- of physical memory are a function; the flush of the TLB and the log are left out. What kmalloc
-- does for a new page table, to the entries of the heap and to the memory, is a parameter.
--
-- Task is src/core/task.cpp with src/core/user.cpp: tasks at addresses, the circular queues that
-- link them, the tree from ids to tasks, and the operations fork, schedule, sleep and wakeup as
-- functions on the state of the scheduler. A queue is related to the list of its tasks in the
-- order of the links. A saved register comes as an argument, and the jump to another task is the
-- change of the current task; the assembly of the switch and of switch_to_user_mode is left out.
-- Task/Stack is move_stack, on words of memory, with the registers as arguments. A failed
-- assertion of the debug build is none. The search of get_next_pid takes fuel for the way to a
-- bound on the ids in use. Task/Trace is the relation of the kernels that the calls reach from
-- Task::init; the address of a new task, which kmalloc gives, is a parameter.
--
-- Kheap is src/core/kheap.cpp, and Common is src/include/common.h: the allocator with its free
-- blocks in two trees, by size and by start. Sums are taken modulo 2^32. The nodes of both trees
-- come from one pool, whose use is the number of their nodes; without a free node the code
-- panics. The header of an allocation is kept in a map from addresses; the calls to the page
-- directory are recorded in a list. The loop of kmalloc takes fuel for the blocks that are not
-- less than the request, which is shown to be enough. Kheap/Chunks relates a heap to the list of
-- its allocations in use, and Kheap/Trace is the relation of the heaps that the calls reach.
--
-- Ramdisk is src/drv/ramdisk.cpp: seek, read, write and close of a file in a memory of bytes.
-- Offsets are integers, from Base/Int. read returns the bytes it copies out, write takes the
-- bytes it copies in.
--
-- Elf is src/core/elf.cpp: load_elf as a function of a file, the bytes of the address space and
-- the calls to the page directory so far. NodeFile is the part of Node_file in
-- src/include/fs/base.h that it calls, and Elf/OnRamdisk fills it with the RAM disk. The bytes
-- of the RAM disk are taken apart from those of the address space.
--
-- Descriptor is src/core/descriptor_table.cpp with src/include/descriptor_table.h: the entries
-- of the descriptor tables, the handlers of the interrupts, and the writes to the interrupt
-- controllers as a list. A bitwise or of disjoint fields is a sum. Ctype is
-- src/include/lib/ctype.h. Klog is src/core/klog.cpp: the screen with its cursor and colours,
-- vprintf in Klog/Format without %f, init and log in Klog/Log, and the digits of numbers;
-- Klog/Reach is the relation of the screens that the calls reach; the fuel of the loop of u2s is
-- the number itself. Initrd is initrd.cpp, the program for user mode: its own vprintf, over the
-- system call sys_puts as a parameter. Kmain is src/core/main.cpp with src/core/common.cpp: the
-- interrupts of the timer and of the keyboard, over Task and Descriptor, and the writes to ports
-- of init_timer and of a panic. Fs is src/fs/base.cpp with src/include/fs/base.h: the operations
-- that a file system inherits, with the error number of the current task from Task. Signal is
-- src/core/signal.cpp, a set of signals as the bits of a word. Cxx is src/lib/cxxsupport.cpp,
-- the table of the functions that run when the kernel ends; what a called function does is a
-- parameter.
--
-- Not modelled: Page::init and clone_directory, which calls kmalloc while the two directories
-- share the tables of the heap; the checks of RBT_DEBUG; the conversion %f of vprintf; kmain
-- itself, its tests and those of initrd.cpp, the system calls, the operators new and delete, and
-- the string routines; the parts written in assembly.
pub mod Base
pub mod Common
pub mod Rbt
pub mod Page
pub mod Task
pub mod Kheap
pub mod Ramdisk
pub mod Elf
pub mod Descriptor
pub mod Ctype
pub mod Klog
pub mod Signal
pub mod Cxx
pub mod Initrd
pub mod Kmain
pub mod Fs

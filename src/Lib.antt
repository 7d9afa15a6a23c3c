-- ===== src/Lib.antt =====
-- Programs for a course on operating systems: lab1, a sender and a receiver that share a mailbox
-- (Mailbox); lab2, a shell (Shell); lab3, threads that count and multiply matrices (SpinLock, Matrix)
-- and the kernel modules with a proc file that they use (Proc); and lab4, the kernel module of a file
-- system in memory (Osfs): the allocators of blocks and inodes, the extent tables of files, reading
-- and writing, directories and mounting. Each part has its own state.
--
-- The state of Osfs is `SbInfo` (lab4/osfs.h, `struct osfs_sb_info`) with the memory that its pointers lead
-- to: the bitmaps by bit number, the inode table by inode number and the data blocks by byte. A
-- pointer into the inode table is an index, a pointer into the data blocks a byte offset. Every
-- operation takes the state and returns the new one with its result; a negative number is an `err`.
-- Numbers of 32 bits wrap around where the code computes with them.
--
--   Osfs/Types     lab4/osfs.h: constants and structures
--   Osfs/Memory    bytes and 32-bit members of the data blocks
--   Osfs/Alloc     lab4/inode.c: allocation and release of blocks and inodes
--   Osfs/Extent    lab4/file.c: the extent table of a file; its list of blocks
--   Osfs/File      lab4/file.c: osfs_read and osfs_write
--   Osfs/Inodes    lab4/inode.c and lab4/dir.c: loading an inode, osfs_new_inode
--   Osfs/Dir       lab4/dir.c: osfs_lookup, osfs_add_dir_entry, osfs_create, osfs_iterate
--   Osfs/Super     lab4/super.c and lab4/osfs_init.c: osfs_fill_super, osfs_kill_superblock
--   Osfs/Examples  concrete states and runs
--   Shell/Command  lab2/src/command.c: read_line, split_line, the history
--   Shell/Builtin  lab2/src/builtin.c: the search for a command, echo, record
--   Shell/Process  lab2/src/shell.c: redirection, the pipeline, built-in commands, on descriptors
--   Shell/Examples concrete lines
--   SpinLock       lab3/1/1_2/1_2.c: two threads, a counter and a spin lock
--   Mailbox/Message  lab1/sender.c: the messages made of the input file
--   Mailbox/Memory   lab1/sender.c, lab1/receiver.c: the mailbox in shared memory, with its semaphores
--   Mailbox/Queue    the same with a System V message queue
--   Mailbox/Setup    what the two `main`s create, attach and remove
--   Mailbox/Delivery from the lines of the input to what is received
--   Matrix         lab3/2/2_1.c, lab3/2/2_2.c, lab3/3/3_1/3_1.c, lab3/3/3_2/3_2.c: the matrix threads
--   Matrix/Counter lab3/1/1_1/1_1.c: two threads and a counter under a lock of the pthread library
--   Proc           lab3/3/3_2/My_Kernel.c: Mywrite and Myread
--   Proc/Threads   lab3/3/3_1/My_Kernel.c: Myread
--   Proc/Report    lab3/3/3_2/3_2.c: what a thread writes to and reads from the proc file
--   Base           tests on numbers, 32-bit arithmetic, counting of bits, lists
--
-- The threads of SpinLock and Matrix and the processes of Mailbox step in any order: a step is one
-- access to shared memory or one system call. A semaphore is a number and the message queue a list;
-- the rule by which the queue takes messages, the answers of the system in Mailbox/Setup, the next
-- descriptor in Shell/Process and the copies to and from the user in Proc are parameters. The sizes of
-- the matrices and the number of rounds are parameters too.
--
-- What Osfs calls of the kernel is a parameter: copies from and to the user, the clock,
-- `new_inode`, `inode_init_owner`, `dir_emit`, `vmalloc`, `d_make_root`. The loops of read and write
-- have as fuel the number of bytes to move, which is enough since each round moves one at least.
--
-- Not modelled: the caches and reference counts of the VFS, the log messages, the registration of
-- the modules; the measurement of time in lab1; the loop of lab2's shell, its waiting for children
-- and their status, the commands that only call the system (help, cd, pwd); in lab3 the reading and
-- printing of the matrices. The tokens of the shell are those that `strtok` makes, its input is
-- what `fgets` reads.
pub mod Base
pub mod Mailbox
pub mod Matrix
pub mod Osfs
pub mod Proc
pub mod Shell
pub mod SpinLock

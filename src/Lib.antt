-- ===== src/Lib.antt =====
-- A verification library for ARMCortex-A7OS, a small kernel for an ARM Cortex-A8 board.
--
-- The program's parts, and the files that model them:
--   kernel/scheduler.c   Scheduler.antt: the process table `pcb`, with pointers into it as indices.
--                        Its children prove what ageing, choice, switch, fork, exit and kill do.
--   kernel/ipc.c         Ipc.antt: the table of pipes. A pointer to a buffer is one of two sides, or
--                        none for the null pointer. Ipc/Mailbox.antt: what a pipe is to its ends.
--   kernel/mem.c         Fs.antt has the structures and their bytes; Fs/Files.antt set-up, opening,
--                        closing and loading; Fs/Rw.antt writing and reading; Fs/Text.antt a file
--                        as the text in its chain of blocks; Fs/Writes.antt what a write makes of
--                        it, Fs/Durable.antt what a reset leaves of it. Fs/Store.antt is the disk
--                        as an array of blocks, Fs/OnServer.antt the driver and the server as one.
--   kernel/hilevel.c     Hilevel.antt: reset, system calls and interrupts, over the three above.
--   device/PL011.c       Uart.antt: the blocking calls of the serial driver.
--   device/PL050.c       Keyboard.antt: the keyboard driver.
--   device/disk.c        Disk.antt: the disk driver, lines of hexadecimal text over a serial port.
--   device/disk.py       Disk/Server.antt: the server at the other end of that line.
--   device/*.h           Registers.antt: the structures of memory-mapped registers, laid out as the
--                        compiler does, and the addresses in device/*.c.
--   user/libc.c          Libc.antt: the system call stubs, run against the handler of Hilevel.antt;
--                        Libc/Sys.antt: the calls as a program sees them; Libc/Numbers.antt: atoi,
--                        itoa and memset.
--   user/console.c       Console.antt: the command line, over the record Sys; cat of user/cat.c.
--   user/P3.c, P4.c      P3.antt: is_prime; P4.antt: gcd; and the loops that call them.
--   user/P5.c, P8.c      P5.antt: weight, and its loop; P8.antt: the calls on one file.
--   user/P6.c, P7.c      P6.antt: the waiter of the dining philosophers; P7.antt: a philosopher.
-- Base.antt and its children have what the parts share: tests on numbers, arrays as lists, 32-bit
-- words, C strings.
--
-- A word (`int`, `uint32_t`, a pointer) is its bit pattern, a number below 2 ^ 32; arithmetic that can
-- wrap is written with its modulus. The static variables of a part are the fields of a record, and a
-- function that changes them returns the new record. Messages printed on UART0 are kept in a list for
-- each part. An outcome `none` is undefined behaviour (an index outside of a table, a null pointer), or
-- a wait that never ends.
--
-- What the linker decides is the record `Scheduler.Image`. The device at the other end of a serial
-- line is a function fed with the bytes sent. The file system takes the disk as the record `Fs.Blocks`
-- of a read and a write. The transmitter of the UART is taken to drain by itself. A counted loop is a
-- recursion on its list or its rounds; the loops of `file_write` and `file_read` run on fuel, one or
-- two rounds more than the bytes asked for. That is enough where every block that a round leaves takes
-- a byte off the count, as the blocks of `Fs.Text.Holds` do; a loop without end is `none`.
--
-- The recursion of `gcd` and the loop of `is_prime` run on fuel that is an argument; the theorems say
-- how much is enough. The loops of `itoa` have fuel for 40 digits, and a word has at most ten.
--
-- A user program runs over the record `Libc.Sys.Sys` of system calls, each of which may change the
-- world (the kernel, the other processes, the devices) in any way.
--
-- The kernel's static variables stand apart from the memory that processes share. Nothing in the
-- program protects them: user code is taken to leave them alone, and a read of a file whose pointer
-- would put a byte on them is an outcome `none`. The array of `file_read`, of one byte more than are
-- asked for, is taken to fit on the stack.
--
-- Not modelled: the assembly, which saves and restores registers around the handlers; what a device
-- does when its registers are read or written, but for the serial ports and the keyboard; the options
-- and the log of the disk server.
pub mod Base
pub mod Scheduler
pub mod Ipc
pub mod Keyboard
pub mod Uart
pub mod Disk
pub mod Fs
pub mod Hilevel
pub mod Libc
pub mod P4
pub mod Registers
pub mod P3
pub mod P5
pub mod P6
pub mod P7
pub mod P8
pub mod Console

-- ===== src/Lib.antt =====
-- A model of the kernel's drivers, its memory management and its string functions, with proofs of
-- what they do.
--
-- The kernel runs on a bare x86 machine. It reaches every device by `inb`, `inw`, `outb` and `outw`
-- (src/kernel/include/io.h), and every driver below is a client of these four. The devices are not
-- part of the repository: a bus, with a state of its own type and any answers, is a parameter of
-- every driver. Where a theorem depends on how a device answers, its hypothesis is a record of the
-- documented register protocol (a channel of an ATA device, a pair of 8259A controllers), and a
-- concrete bus that fulfils it stands in the tests beside it.
--
-- The parts:
--   Common: shared names of the libraries, Boolean tests, lists indexed by native numbers, the
--   unsigned C operators with their wrap-around, ring buffers, bounded tables.
--   Io: the bus, and commands that poll it. A run is `done`, `waiting` (the fuel of a polling loop
--   ran out) or `fault` (an access outside of an array).
--   Ata: src/kernel/drivers/ata.c. Ata.antt has `delay`, `poll`, `ata_read` and `ata_write`, one
--   function for each loop; Ata/Identify.antt has `identify_command` and `ata_init`. Each polling
--   loop has its own fuel, and the theorems on transfers take as much fuel as the device stays
--   busy: then the call returns. Word buffers are lists, and an access behind their end is a fault.
--   Mem: src/kernel/drivers/mem.c. Mem/Bitmap.antt has the two-bit entries in a byte memory,
--   Mem/Frames.antt the frame allocator, Mem/Init.antt `mem_init` on the BIOS memory map, and
--   Mem/Heap.antt `kalloc` and `kfree` on a store of list entries by address. Its client's view is
--   Mem/Heap/Spec.antt: an area of memory divided into cells, `request` for `kalloc`, and `give` of
--   Mem/Heap/Free.antt for `kfree`; it is for a heap whose frames have no gaps between them.
--   Interrupts: src/kernel/interrupts.c; the handlers and the message for an interrupt without one
--   are arguments, which Kernel/Interrupt.antt fills.
--   Pic: src/kernel/drivers/pic.c. Kb: src/kernel/drivers/kb.c, the assembler of scan codes and
--   its 32-byte ring. Serial: src/kernel/drivers/serial.c, the receive rings of 64 bytes. Fb:
--   src/kernel/drivers/fb.c, with `fb_printf` in Fb/Printf.antt. Str: src/kernel/string.c, with
--   `itoa` in Str/Number.antt and `sprintf` in Str/Format.antt; the loops over zero-terminated
--   strings are on fuel, more than the length of the string is enough, and 32 rounds are enough for
--   the digits of a 32-bit number.
--   Minix: tools/src/minix.c, the host program that writes the kernel into a MINIX file system. The
--   image is a size and a function of bytes; `none` is `scream_and_quit`. `minix_add_file_block` is
--   cut at its three levels of indirection. `ps` and the offsets computed from it are `int`s, kept
--   by their 32 bits, with a signed overflow taken to wrap; `fseek` refuses those that are
--   negative. Minix/Trunc.antt has `minix_trunc_inode`, whose bound, which the program does not
--   set, is an argument; `minix_write` is in Minix/Volume.antt, the partition table and the maps,
--   and Minix/Install.antt, the directory and the copy. Opening files, and an error of the host's
--   file functions other than the end of the image, are left out.
--   Tools: tools/src/btool.c and the commands mbr (Tools/Mbr.antt, tools/src/mbr.c) and boot
--   (Tools/Boot.antt, tools/src/bootloader.c). `atoi`, `strtok` and `strcmp` of the host are a
--   parameter; a file is there or not.
--   Kernel: src/kernel/kernel.c over all of the above. Kernel.antt has `kernel_panic`, `kmain`,
--   `kmain2` and a round of the idle loop on the state of the machine, Kernel/Interrupt.antt the
--   dispatch of interrupts. What the assembly hands over, what fresh blocks of memory hold, and what
--   `kb_init` leaves as its value without a `return`, are fields of `Given`. `kalloc` has fuel for
--   the cells of the heap; the polling loops of the disks have fuel of their own.
--
-- The kernel's parts meet as the code's do: the interrupt handlers of Kb and Serial end with
-- `send_eoi` of Pic, `mem_init` clears its bitmap with `memset` of Str, `kalloc` takes frames from
-- Mem/Frames, and the drivers take their tables and buffers from `kalloc` when Kernel starts them.
-- Fb writes into the memory of Mem/Bitmap: in Kernel both are one memory.
--
-- Not modelled: the assembly files and the boot sectors, with `hw_sti`, `hw_cli` and the move of the
-- stack in kernel.c, where `hw_hlt` ends a panic; interrupts that come before the idle loop;
-- src/kernel/drivers/device.c, which does not build with the rest; the help texts of the tools. The
-- addresses of bytes do not wrap around at 2^32, and the entries of the heap and the contents of its
-- blocks are kept apart from the bytes of memory.
pub mod Common
pub mod Io
pub mod Mem
pub mod Pic
pub mod Kb
pub mod Ata
pub mod Str
pub mod Serial
pub mod Minix
pub mod Tools
pub mod Fb
pub mod Interrupts
pub mod Kernel

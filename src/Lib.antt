-- ===== src/Lib.antt =====
-- The ESP32-P4 Linux hypervisor: a monitor that runs a RISC-V Linux guest in U-mode on core 1, traps
-- what the guest may not do, and emulates the machine that the guest expects to run on.
--
-- The program. Every trap enters `hypervisor` (main/hyp_core.c) with a frame of registers. A host
-- interrupt polls the host's devices; an exception is dispatched by its cause: illegal
-- instructions to the CSR emulation (main/hyp_csr.c), access faults inside a device window to the
-- MMIO dispatch (main/hyp_mmio.c), everything that is the guest's own to its trap vector
-- (`hyp_inject`, main/hyp_intr.c). Instructions are fetched and expanded by main/hyp_decode.c. The
-- devices are a CLINT (main/hyp_clint.c), a PLIC (main/hyp_plic.c), a 16550 UART
-- (main/hyp_uart.c) and a virtio block device (main/hyp_virtio_blk.c), whose requests core 0 serves
-- from the SD card (main/hyp_sd.c). On the way back to the guest a pending virtual interrupt is
-- delivered. The last sixteen traps are kept in a ring (main/hyp_trace.c). Before the guest runs,
-- main/hyp_boot.c copies its kernel and device tree to PSRAM, tells it where its file system is
-- mapped, and opens its memory to U-mode; from then on core 0's loop in main/main.c watches it. A USB
-- keyboard (main/hyp_kbd.c) is decoded by a thread of core 0 into a ring of bytes for core 1.
--
-- The files. Each C file has a module of the same part's name, and each C function a definition of
-- the same name; static state is a record, and a function that changes it returns the new one.
--   Base       Booleans, fixed arrays, w-bit words, the bits of a number.
--   Frame      The trap frame and guest memory, with `reg_read` and `reg_write`.
--   Decode     main/hyp_decode.c; Decode/Rvc and Decode/Laws hold its theorems.
--   Plic       main/hyp_plic.c; `plic_write` is in Plic/Write, as it calls the UART.
--   Uart       main/hyp_uart.c; Uart/Queue is the receive ring, Uart/Line the interrupt line.
--   Clint      main/hyp_clint.c; Clint/Timer is the deadline and the host's alarm.
--   VirtioBlk  main/hyp_virtio_blk.c: core 1's registers; VirtioBlk/Ring and VirtioBlk/Service are
--              core 0's half; VirtioBlk/Start brings up the card (main/hyp_sd.c) and its service.
--   Trace      main/hyp_trace.c: the ring and what a dump prints of it; Trace/Report is the statistics
--              and the panic.
--   Monitor    The state that main/hyp.h shares between the parts.
--   Intr       main/hyp_intr.c.
--   Csr        main/hyp_csr.c.
--   Mmio       main/hyp_mmio.c.
--   Core       main/hyp_core.c.
--   Invariant  What holds between any two traps: Invariant/Serial and Invariant/Access for the
--              devices, Invariant/Hart for the guest, Invariant/Trap for a trap and for sequences.
--   Kbd        main/hyp_kbd.c: the ring between the cores; Kbd/Usage is the tables, Kbd/Report the
--              press tracking and the repeat, Kbd/Thread the poll thread; the other files of Kbd hold
--              the theorems.
--   Boot       main/hyp_boot.c: Boot/Pmp is the PMP entry, Boot/Dtb the device tree's placeholder,
--              Boot/Cmdline the command line, Boot/Load the loading of the guest, Boot/Cores the start
--              of the two cores; the other files of Boot hold the theorems.
--   Watch      main/main.c: the service loop that watches the guest.
--   Native     native/linux-native/main/main.c: a loader that boots Linux without the monitor;
--              Native/Copy, Native/Probe, Native/Registers and Native/Shim are the code, Native/Whole,
--              Native/Header, Native/Fields and Native/Jump hold the theorems.
--   Tests      Concrete states, and each theorem at one of them.
--
-- Numbers. A `uint32_t` is a natural number; additions, shifts and complements are reduced modulo
-- 2^32 where the C expression is, and a subtraction adds the modulus first.
--
-- Hardware. What hardware answers is an argument: the systimer's counter, the cycle counter, the
-- room in the transmit FIFO, and what a poll finds (`Host`, `Arrivals`, `Cycles`, `World`). The
-- card's driver is the record `Card`; what is assumed of its reads is the record `Reads`.
--
-- The USB stack's answers are a list of `Turn`s, the flash partitions the record `Flash`, what
-- the core keeps of a PMP configuration a function, core 0's view of the guest the record `Seen`, what
-- the card and the block device answer at the start the record `Board`, and ESP-IDF's calls on the
-- card's pins the record `PinCalls`.
--
-- Loops. The PLIC's scan has 31 turns, and the register accesses one for each byte. The wait in wfi
-- runs over a list of rounds, and `none` is a core still asleep after the last. A transfer has
-- len / 32768 + 1 turns of fuel, which is enough. The walk along a descriptor chain and the drain
-- of the avail ring run on fuel that the caller gives: in C nothing bounds them but the guest's
-- rings. The boot's searches have one turn for each place of the image, and `strlen` one for each
-- byte up to a bound: without a NUL below it, its answer is `none`. The keyboard thread and the
-- service loop run over the turns they are given.
--
-- The two cores. Core 0's half of the block device, its keyboard thread and its service loop run
-- beside the traps of core 1. Each half is a sequence of steps of its own; where they share a ring,
-- the steps of both are taken in any order, and so they are when the cores start. A report of the
-- keyboard is one step. The keyboard's self-test, which shares the key tracking with core 0's reports
-- without a lock, is modelled alone and is not interleaved with them.
--
-- Not modelled: the trap vector (main/hyp_vectors.S), which is assembly; output on the console; the
-- start-up of the USB host, of core 1's interrupt controller and of the UART, which are
-- calls of ESP-IDF and of CherryUSB; the choice of a USB interface in `usbh_hid_run`; the stores of
-- core 1 to guest memory while core 0 serves a request; of the native loader the start of the wireless chip
-- and the display's clocks, which are calls of ESP-IDF; the other programs under native and buildroot,
-- which run without the monitor.
pub mod Base
pub mod Frame
pub mod Decode
pub mod Plic
pub mod Uart
pub mod Clint
pub mod VirtioBlk
pub mod Trace
pub mod Monitor
pub mod Intr
pub mod Csr
pub mod Mmio
pub mod Core
pub mod Invariant
pub mod Kbd
pub mod Boot
pub mod Watch
pub mod Native
pub mod Tests

-- ===== src/Lib.antt =====
-- Linux GPIB: the hardware independent core of the kernel driver for IEEE 488 buses, the C library
-- on top of it, the libraries for two families of interface chips below it, and a board's driver.
--
-- The program. A process opens the device file of a board and drives the bus by ioctls. The core,
-- linux-gpib-kernel/drivers/gpib/common (gpib_os.c with the ioctls, queues and descriptors,
-- iblib.c with the bus operations), turns each of them into calls of the board's driver, which it
-- sees as the table of functions `struct gpib_interface`. A board keeps a list of the device
-- addresses that are open, each with a count of handles and a queue of serial poll bytes; a queue
-- of events; a watchdog timer that sets TIMO when it fires; and a user mutex. An open file keeps
-- a table of descriptors. A thread polls the devices when SRQ is asserted.
--
-- The files.
--   Prelude: Boolean tests, lists and integers over native numbers, single bits of a word.
--   Uapi: the constants and error numbers (uapi/gpib.h, common/ibsys.h), and the command bytes of
--     include/gpib_cmd.h.
--   Kernel/Types: include/gpib_types.h, the structures as records; `Interface` is `struct
--     gpib_interface`, in which each function may change the board it is called on.
--   Kernel/StatusQueue, Kernel/EventQueue: push_status_byte, pop_status_byte and the event queue;
--     Spec is the bounded fifo that Fifo refines.
--   Kernel/Devices: get_gpib_status_queue, increment_open_device_count and its inverse.
--   Kernel/Handles: the descriptor table, open_dev_ioctl, close_dev_ioctl, cleanup_open_devices;
--     Uses and Accounts relate the table to the counts.
--   Kernel/Timer: os_start_timer, os_remove_timer, io_timed_out.
--   Kernel/Ibstatus: iblines, general_ibstatus. Kernel/Control: ibcac, ibcmd, ibgts, ibsic, ibrsc,
--     ibsre. Kernel/Buffer: what keeps the core's buffer.
--   Kernel/Read, Kernel/Write, Kernel/Command: ibrd, ibwrt and the ioctls that transfer data
--     (Read/Private: what a read does to the driver's private data; Write/Framing: END;
--     Command/Progress: the flag io_in_progress).
--   Kernel/Poll: the serial poll and a round of the autospoll thread.
--   Kernel/Config: ibpad, ibsad, ibeos, ibrpp, ibppc, ibrsv2, going online and offline, and
--     pad_ioctl and sad_ioctl (Move: their handles). Kernel/Files: ibopen, ibclose (Close),
--     autospoll_ioctl, mutex_ioctl.
--   Kernel/Wait: ibwait and wait_ioctl. Kernel/Dispatch: the tests of ibioctl that a command passes
--     before the function that serves it (Uses: what is refused).
--   User: linux-gpib-user/lib. Session has a descriptor (ibConf.h), the ioctls as the record
--     `Driver`, and the state of a call; Addresses and Timeouts are ibutil.c and ibTmo.c; Commands
--     is ibCmd.c with what it needs of other files (Bus: a command string as IEEE 488.1 reads it;
--     Setup: what create_send_setup says on it); Write and Read are ibWrt.c and ibRd.c.
--   Chips/Nec7210: drivers/gpib/nec7210/nec7210.c, the status word and the interrupt handler
--     (Addressing: what the status says); Waiting, what happens to a process that sleeps; Transfer,
--     writing without DMA (Resend: what the chip has taken; Bounds: that it ends); Receive,
--     reading; Command, command bytes; Settings, control of the bus, the settings and the reset.
--     Mirror relates the software copies of registers to the chip (Runs: in every order of calls).
--   Chips/Tms9914: drivers/gpib/tms9914/tms9914.c, the state, the parallel poll register and the
--     status word; Registers (include/tms9914.h), Interrupts, Waiting; Settings, with control of
--     the bus and the reset; Transfer, reading and writing; Command. Kept has what interrupts leave
--     alone; Holdoff, Reads, Writes, Messages and Listens what the transfers do; Awake that a
--     signal ends the waits of a read. Chips/States has the states of talkers and listeners
--     (include/gpib_state_machines.h).
--   Boards/Hp82335: drivers/gpib/hp_82335/hp82335.c, the operations of the driver; Attach, attach,
--     detach and the table of functions, an `Interface`; Contract, what the core relies on when it
--     reads; Core, read_ioctl on this driver; Returned, what attach takes and detach gives back.
--   System: `Driver` filled by the core, and what the library then puts on the bus (Sends); the
--     talker of the TMS 9914 against the bus of the library's command strings (Talker).
--   Kernel/Tests, User/Tests, Chips/Nec7210/Tests, Chips/Tms9914/Tests, Boards/Hp82335/Tests,
--     System/Tests: runs of the theorems at concrete values.
--
-- How the code is modelled. A function that changes a board or a file takes it and returns it. A
-- value stored through a pointer is returned beside the result, and an errno is a negative
-- integer. A linked list is the list of its entries, and what a loop changes in place is the list
-- that it returns. What the operating system answers (memory from kmalloc, the copies from and to
-- the user, an interrupted wait) is an argument; the wake-ups of a process that waits are a list,
-- each with the board as it is then. Of a TMS 9914 they are interrupts with the registers, the
-- timer and signals; a signal stays pending. A process that sleeps on after the end of the list is
-- an end of its own for the NEC 7210, and for the TMS 9914 a mark on the chip, after which what is
-- computed is no behaviour of the code. The registers that are written are a log. A driver is a
-- parameter of the core; where a theorem needs what gpib_types.h asks of its reads (at most the
-- bytes asked for are stored, and one at least unless the read fails or ends; the core's buffer is
-- left alone), that is a named hypothesis, to which the driver of the HP 82335 keeps. Numbers are
-- natural numbers; the reference counts wrap at 2 ^ 32.
--
-- Bounds and fuel. The loops of ibrd, read_ioctl, write_ioctl and command_ioctl run on fuel, one
-- more than the bytes left: a round moves a byte at least or is the last, of a read with a driver
-- that keeps to the hypothesis, and of a write or a command as long as no call of the driver
-- succeeds without a byte. The loop of my_ibwrt has its fuel as an argument. The loop of
-- gpib_deallocate_board has the number of events and two more. A round of pio_write sends a byte
-- or counts an error, of which it allows max_bus_errors, and each costs at most one byte sent
-- again. A round of pio_read stores a byte or is the last. The loops of the TMS 9914's library
-- recurse on the bytes that are left, and busy waits on their rounds. The queues hold 1024
-- entries, the table 4096 descriptors.
--
-- Not modelled. The drivers of the other boards (they access hardware and sit behind the table of
-- functions); of the library for the NEC 7210 DMA and nec7210_set_reg_bits; interrupts between the
-- steps of the functions of a chip's library; the older copy of the core in drivers/gpib/sys; the
-- choice of a board's driver and the ioctls that only copy a value; of the C library its table of
-- descriptors, its options, asynchronous transfers, transfers from and to files, and the parser of
-- its configuration file; the bindings. Locks other than the user mutex are not modelled: an
-- operation is one step.
pub mod Prelude
pub mod Uapi
pub mod Kernel
pub mod User
pub mod Chips
pub mod System
pub mod Boards

-- ===== src/Lib.antt =====
-- Verification of the L4Re eMMC driver: its command queue, its requests from the block device client
-- to the commands on the bus, the DMA descriptors, the interrupts of the SDHCI controller, the
-- clocks, the powering up of SD cards and eMMC devices, the set-up of the controllers, the choice of
-- devices and the creation of clients.
--
-- A block device request enters at Device::inout_data() (server/src/device-impl.h). It takes a slot
-- of the command queue (server/src/cmd.h), sets up the first command in it, and kicks the queue,
-- which submits the oldest command that is ready to the controller. The controller finds the memory
-- of the request in a table of ADMA2 descriptors, or at an address for SDMA. Each interrupt goes
-- through the controller's handle_irq(), which changes the state of the current command, and then
-- to Device::handle_irq_inout(), which sets up the next command of the request, or calls the
-- callback of the client and gives up the slot. Before that, a thread of start_device_scan() powers
-- up the card: it probes it, looks for an SD card and then for an eMMC device, sends one command
-- after the other, waits for each, and sets up clock, voltage and bus width in between.
--
-- Around this, main() (server/src/main.cc) reads the command line, asks Factory::create_dev()
-- (server/src/factory.cc) for each device of the bus, starts the set-up of those that it takes, and
-- registers itself for dynamic clients when all of them are set up.
--
-- Files, by the code that they model:
--   Base            shared names, Boolean tests and lists over native numbers, and calls that may
--                   throw: a `Method` gives the state back beside what it gave or threw
--   Base/Int        the whole numbers of the options and parameters
--   Reg             the bit fields of registers (CXX_BITFIELD_MEMBER); Laminar has fields that do not
--                   interfere, Ops sequences of register writes and waits (Util::poll() of
--                   server/src/util.cc)
--   Layouts         the layouts of server/src/drv_sdhi.h (Sdhi/Fields), server/src/drv_sdhci.h
--                   (Sdhci/Fields) and server/src/mmc.h (Mmc/Fields), one definition for each struct,
--                   and what holds of all of them; Shared lists the fields on bits of others
--   Main            server/src/main.cc: parse_args(); Create is op_create(), Scan is
--                   device_discovery() and device_scan_finished(); Args and Asked are proofs
--   Factory         server/src/factory.cc: create_dev() with nopci_dev() and pci_dev(); Resources and
--                   Taking are the proofs
--   Cpg             server/src/cpg.cc: enable_clock() and enable_register(); Enable is the proof
--   Mmc             server/src/mmc.h: command values, enums
--   Mmc/Csd         server/src/mmc.h, struct Reg_csd; Size proves its arithmetic
--   Cmd             server/src/cmd.h, class Cmd: the fields are those of the class, each initialiser
--                   is a function of the same name, `destruct` without its queue is `invalidate`
--   CmdQueue        server/src/cmd.h, class Cmd_queue, as a list of 32 contexts and three positions;
--                   Inv is its invariant, Fifo its view as a queue, Retire the giving up of a command
--   Inout           server/src/device-impl.h: transfer_block_sdma(), handle_irq_inout_sdma(),
--                   set_block_count_adma2(), handle_irq_inout_adma2(), and as `advance` the branches
--                   of handle_irq_inout(); `follow` runs a request against given completion states
--   Inout/Device    inout_data(), handle_irq_inout() and cmd_queue_kick() on the queue and a log of
--                   callbacks; Inout/Irq is handle_irq() with the interrupt that it unmasks, where the
--                   driver's handle_irq() is a parameter; the proofs for it are Masks and Served
--   Inout/*         the proofs: Advance for any controller, Commands, Between, OneBlock and Sdma for
--                   requests without ADMA2, Adma for those with it, Queue and Accept for the queue
--   Flush           Device::flush() of server/src/device-impl.h; Ends is the proof
--   Adma            server/src/drv_sdhci-impl.h: adma2_set_descs*(), the copies from and to the
--                   bounce buffer, and the sizes of table and segments; Region, Blocks, Bounce and
--                   Size are the proofs; Buffer is setup_bounce_buffer() of server/src/drv.cc
--   DmaMap          server/src/device-impl.h: dma_map_single(), dma_unmap_single() and their two maps
--   Clock           server/src/drv_sdhci-impl.h: the divisors of set_clock(), for Iproc and Usdhc
--   Sdhci           server/src/drv_sdhci-impl.h: handle_irq() with both of its phases, and the
--                   response; Irq and Response are the proofs
--   Sdhci/Submit    cmd_submit(), in Prepare and Send; the proofs are Kept for the helpers, Sent and
--                   Size for what the controller is told, Queue for the device that submits by it
--   Sdhci/Setup     set_clock_and_timing() and tuning for uSDHC; Uhs for Iproc, Caps the capabilities
--                   as the controller that powering up asks; Modes is the proof
--   Sdhci/Exec      Drv::cmd_exec() of server/src/drv.h with the waits of server/src/drv_sdhci-impl.h;
--                   Executed is the proof
--   PowerUp         server/src/device-impl.h: the search of power_up_mmc(), with mmc_set_timing()
--   Sdhi            server/src/drv_sdhi.cc, server/src/drv_sdhi.h: the divisors of the SDHI clock
--   Sdhi/Submit     cmd_submit(); Sdhi/Interrupt handle_irq(), the waits and the response; Exec is
--                   Drv::cmd_exec() of server/src/drv.h on them; Sent and Ends are proofs
--   Sdhi/Setup      init(), set_clock_and_timing() and set_bus_width() of server/src/drv_sdhi.cc;
--                   Stopped and Ready are the proofs
--   Sdhci/Init      init() and set_bus_width() of server/src/drv_sdhci-impl.h, for all types; Ready is
--                   the proof
--   Mmc/Sd          server/src/mmc.h: the registers of SD cards
--   Session         server/src/device-impl.h: what is sent and set while a card is powered up, as a
--                   log; Switch has exec_mmc_switch(), mmc_app_cmd(), mmc_set_timing() and their
--                   like. Keep and Post are rules for sequences of steps, Order, Frame and Address
--                   what single steps keep, Poll and Ocr the proofs on exec_mmc_switch() and
--                   adapt_ocr()
--   SdCard          power_up_sd(), with the search for a mode in Select; Order, Search, Refuse and
--                   Stale are the proofs
--   MmcCard         power_up_mmc(), with the search and the probing of start_device_scan() in Select;
--                   Search, Address and Zero are the proofs
-- The Tests beside them apply the theorems at concrete inputs.
--
-- Conventions. Numbers are natural numbers, and the wrap of a machine word is written out. A
-- register is the record of its bit fields, or, where sequences of writes are modelled, the
-- function from a position to its bit; there, a register holds what was written last, and each
-- write is in a log. A field is written by its position and width, which is what the bit field
-- macro of L4 documents. What the code reads of options is what getopt_long() and atoi() give.
-- What the code reads of the controller, of the device or of L4Re is an argument: registers, the
-- answers to commands, the state that a command completes with, the answers of the DMA space, and
-- the submission of a command. An exception is an outcome, beside the state that it leaves. The
-- chain of blocks of a request is a list.
--
-- Fuel. `follow` takes one unit for each command of a request; two for each block and two more are
-- shown to be enough. A region of n bytes takes n / 32768 + 1 rounds of descriptors. The loops over
-- divisors have at most 1022, 8 and 15 rounds for SDHCI and 9 for SDHI. The search for a mode takes
-- one round for each mode that is left and one more: six for eMMC, and four for SD cards, where only
-- the three modes that are tuned can fail. The loops with a bound in the code have this bound: 50
-- polls, 100 rounds of ACMD41 or CMD1, 10 rounds of initialisation, 40 tuning blocks. num_work()
-- takes at most 32 rounds. enable_clock() of the clock pulse generator polls 20 times.
--
-- Not modelled: the threads, capabilities, interrupt objects and register accessors of L4Re
-- (server/src/mmio.h, server/src/iomem.h, server/src/inout_buffer.h), printing, statistics and time
-- stamps (server/src/util.cc), the map of DMA spaces in server/src/factory.cc, and the mailbox of the
-- firmware in server/src/drv_sdhci-bcm2711.cc. A command that is executed while a card is powered up
-- is taken to come back, with an error or an exception at worst: that Drv::cmd_exec() waits for a bus
-- that stays busy, or for an interrupt that never comes, is in Sdhci/Exec and Sdhi/Exec only. In
-- server/src/factory.cc, exceptions of the virtual bus (a resource or a configuration register that
-- cannot be read or written) are left out, in setup_bounce_buffer() the reserving of the region, and
-- for uSDHC the wait before the address of a DMA boundary is written.
pub mod Adma
pub mod Base
pub mod Clock
pub mod Cmd
pub mod CmdQueue
pub mod Cpg
pub mod DmaMap
pub mod Factory
pub mod Flush
pub mod Inout
pub mod Layouts
pub mod Main
pub mod Mmc
pub mod MmcCard
pub mod PowerUp
pub mod Reg
pub mod SdCard
pub mod Sdhci
pub mod Sdhi
pub mod Session

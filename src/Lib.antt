-- ===== src/Lib.antt =====
-- The White Rabbit PTP core software: the software PLL, the network core with its IP services, the
-- network driver, the shell, the storage, the tasks and the PPS generator.
--
-- The program runs on a small CPU next to a White Rabbit endpoint. Phase detectors in the gateware
-- send tags, each the time of a clock edge on one channel, into a FIFO. The interrupt handler
-- spll_irq_entry takes the tags out and runs, for each of them, the sequencer that starts and
-- supervises the PLLs, the helper PLL, the main PLL, and the phase trackers or the PLLs of the aux
-- channels. The main loop calls spll_update, which runs the alignment to an external clock and the
-- state machines of the aux channels. The network core stamps packets with times that the main
-- PLL's phase trackers refine, and queues them for sockets, from which the IP services are served.
-- The network driver moves frames through two FIFOs. The receive timestamper's transition phase is
-- found by a scan with the phase shifter, and kept in the storage with other parameters.
-- The main loop runs a round of tasks, among them the network polls and the shell, which reads keys
-- from the console and runs commands. Code posts events to handlers.
--
-- The files:
-- - Prelude and its children: shared names, integers with the wrap-around of C's words, lists, and a
--   ring in an array.
-- - Softpll/Config and Softpll/Regs: constants (include/spll_defs.h, include/dev/syscon.h) and the
--   registers, a record that operations take and return. The timer and the number of channels
--   stand there too.
-- - Softpll/Pi, Softpll/LockDet: softpll/spll_common.c, pi_update and ld_update.
-- - Softpll/Helper: softpll/spll_helper.c. helper_update is cut into helper_unwrap, clamp_error,
--   helper_wrap and helper_drive in the order of the code.
-- - Softpll/Main: softpll/spll_main.c. mpll_update is cut into blocks: capture, track_ref,
--   track_out, then mpll_sample for a pair of tags.
-- - Softpll/Ptracker: softpll/spll_ptracker.c.
-- - Softpll/State: the whole state. Softpll/Sequencer: sequencing_fsm of softpll/softpll_ng.c, a
--   function for each state. Softpll/Irq: update_loops and spll_irq_entry, over the list of the
--   tags that one interrupt finds in the FIFO.
-- - Softpll/External: softpll/spll_external.c. Softpll/AuxChannel: the aux channels of
--   softpll/softpll_ng.c. Softpll/Api: spll_init and the calls of other code.
-- - Net/Timestamp, Net/Sockq, Net/Demux: lib/net.c; the times of packets, the sockets' queues, and the
--   choice of the socket for a frame. Events: lib/event.c.
-- - Minic: dev/minic.c; frames read from and written to the FIFOs, lists of their words. Net/Send:
--   ptpd_netif_sendto of lib/net.c, over Minic; Net/Send/Link takes the link between two nodes, with the
--   hardware at its ends, as a parameter.
-- - Storage/Calibration: dev/storage-cal.c; the table of parameters, its file in network order, load
--   and save. Storage/Script: dev/storage-init.c and the loop of shell_boot_script that runs the
--   script in the flash. Storage/Sfp: dev/storage-sfp.c; Storage/Sfp/Search its calls of sfp_entry.
--   The files are records of operations with laws: Sdbfs is a file that is written whole, Area one
--   that is written and read byte by byte, SfpFile one that is read in pieces; the two last are
--   erased to 0xff.
-- - Rxts: dev/rxts_calibrator.c; the transition detectors, the scan, and the choice between the new
--   and the stored value. The hardware is a function of the round and the shift that is set.
-- - Util: lib/util.c; Calendar for dates, Number for numbers and names in texts, Timeout, Division.
-- - Shell: shell/shell.c. Shell/Line is the line editor (insert, delete and the switch on a key),
--   Shell/Args the splitting of a line in _shell_exec, Shell/Commands the rest of _shell_exec,
--   shell_exec and the calls of other code, Shell/Machine shell_interactive, Shell/Script
--   build_init_readcmd and shell_boot_script. Commands and callbacks are functions on the state of
--   the rest of the program; a command may change the line too. The static pointers of the two boot
--   scripts and the file in the flash are parts of that state, which commands can reach: Pointer and
--   Flash say where they are. `init boot` is a command that moves them and changes the line.
-- - Ip: lib/ipv4.c, lib/udp.c, lib/arp.c, lib/icmp.c and lib/bootp.c. A packet is a list of bytes; a
--   poll takes what was received and returns what is sent. Ip/Node is the node's address.
-- - Tasks: lib/wrc-tasks.c. The jobs are functions on the state of the rest of the program; a job's
--   outcome says whether it was the shell with `ps reset` (shell/cmd_ps.c), which clears the statistics.
-- - Pps: dev/pps_gen.c; Pps/Regs for the registers it writes, Pps/Snapshot for reading the time while
--   the generator counts.
-- - Examples: the theorems at concrete states.
-- Modules below a component hold its proofs and are named for what they prove.
--
-- The build that is modelled is the node's on the generic board: CONFIG_WR_NODE, an 8-bit PHY with
-- an 8000 ps clock, 32-bit long, with ppsi, without CONFIG_FRAC_SPLL. An `int` is an integer that i32
-- brings back to 32 bits after each operation that may overflow. An access past an array, which C
-- leaves undefined, changes nothing or gives a neutral value, as said where it happens. ppsi's
-- __div64_32 is a parameter, with the law that it divides where a theorem needs it.
--
-- Bounds and fuel: the second loop of wrap_copy_in runs on fuel, for which the tail's value is enough
-- since each round takes off the size; dispatch_from runs on the number of handlers that can be
-- registered; year_loop of Util/Calendar runs on the number of days, boot_from of Shell/Script on
-- the length of the script, and shw_pps_gen_get_time of Pps/Snapshot on a number of rounds, of which
-- two are enough. subtract_periods of Rxts runs on the number of periods in its argument, the loop of
-- calib_t24p_process on its retries, count_used of Storage/Script and count_sfps of Storage/Sfp on the
-- file's size, match_loop and copy_loop of Storage/Sfp/Search on the rounds up to the one that SFPS_MAX
-- ends, and boot_flash on a number of rounds, of which one more than the script has lines is enough.
-- All other loops are recursion on a list or a count.
--
-- Not modelled: printing and statistics, the SoftPLL's debug queue, the code of the switch
-- (CONFIG_TARGET_WR_SWITCH), other device drivers, closing in lib/net.c, the shell's
-- commands, SNMP, LLDP and syslog, and the copied printing library.
pub mod Prelude
pub mod Softpll
pub mod Storage
pub mod Minic
pub mod Net
pub mod Events
pub mod Util
pub mod Shell
pub mod Ip
pub mod Tasks
pub mod Pps
pub mod Rxts
pub mod Examples

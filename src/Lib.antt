-- ===== src/Lib.antt =====
-- Atari System V service pack: the parts of the repository that are code of its own, modelled and proved
-- as far as the list at the end says. The parts do not call each other: each stands between a kernel, or
-- the network, and its users.
--
-- driver-amix/amx.c, the gate through which AMIX programs call Atari System V (ASV). Amx/Signal has the
-- tables of signals and flags (sig_in, sig_out, mask_in, mask_out, saflags, wstat_out), Amx/Errno the
-- error numbers (err_out) and pathconf's names (pc_in), Amx/Struct the structures (sa_in, sa_out, si_out,
-- st_out, uc_in, uc_out, and termios and utsname as amx_trap0 copies them), Amx/Contexts the table of
-- delivered contexts (amx_uctake, amx_ucgive). Amx/Machine is what the gate sees: registers, memory,
-- process; the kernel (svr4_trap10, copyin, copyout, grow, sendsig, fuword, suword) is a parameter of any
-- behaviour. amx_trap0 is Amx/Prepare (the switch before the call), Amx/Finish (the switch after it) and
-- Amx/Gate (what is around them), with amx_sendsig. Structures are lists of longs, or of bytes. The
-- kernel's work buffers and amxinit are not modelled.
--
-- driver-midi/midi.c, the MIDI port. Midi has the ring and its operations: midi_kick with its rounds,
-- midi_wake, midi_tick, midiint's service of the chip (serve), midiopen, the end of midiclose, the chunk
-- of midiwrite (write_chunk) and MIDI_FLUSH; Midi/Control midiwrite, midiclose and midiioctl with their
-- sleeps and the loop of midiint; Midi/Life the life of a port as steps. The chip's answers to the reads
-- of its status are a list, lbolt is an argument, timeout() a parameter; where the driver sleeps, the
-- model takes what has become of the device meanwhile, as a list of wakes. The loop of midi_kick runs on
-- fuel, ring_size rounds: each round that goes on takes a byte or two out of the ring, which has at most
-- ring_size - 1. A round of midiwrite takes a byte at least or a wake. The keyboard's handler is not
-- modelled.
--
-- mint/ufsxfs/ufs.c, ASV's UFS file systems for FreeMiNT, read only. Ufs/Disk has the structures,
-- Ufs/Blocks ufs_iget and ufs_bmap, Ufs/Files ufs_readfile and the calls on an open file, Ufs/Dirs
-- ufs_dirlookup and ufs_dirname, Ufs/Calls the calls by cookie (ufs_root, ufs_lookup, ufs_opendir,
-- ufs_readdir, ufs_dfree, ufs_readlabel, ufs_readlink, FS_USAGE), Ufs/Mount ufs_free_drive and
-- ufs_mount_slice, Ufs/Scan ufs_scan_device, Ufs/Path ufs_getname, Ufs/Stat ufs_getxattr and ufs_stat64.
-- The buffer cache is a parameter that gives the bytes of a read, or none. Fuel: ufs_bmap has at most
-- three levels; a round of ufs_readfile's loop reads a byte at least, and one of the directories' loops
-- passes eight, so a size in bytes is enough for each; a round of ufs_getname writes a byte of its buffer
-- at least. init_xfs and the calls that only refuse are not modelled.
--
-- dhcpc/dhcpc.c, the DHCP client. Dhcp has cksum, build, parse (its loop on fuel, the length of the
-- options), the loop of exchange (await) and that of main (negotiate), with the datagrams that arrive as
-- an argument, and the netmask by class; Dhcp/Incoming has what parse asks of a datagram. DLPI, the clock
-- and the files that are written are not modelled.
--
-- driver-snd/snd.c, the DMA sound. Snd has the ring, the frame interrupt (sndintr), the tick (snd_tick,
-- in its parts) and what a write puts into the ring; Snd/Calls sndinit, sndstart, sndopen, sndclose,
-- sndwrite and the settings, Snd/Control the waits for the ring to play out and sndioctl. Where the
-- driver sleeps, the model takes what ticks and interrupts have made of the device meanwhile, as a list
-- of wakes; Snd/Run has the device's life as steps, each byte that the DMA takes one of them. Fuel: a
-- round of sndwrite takes a byte at least or a wake. The MICROWIRE, the PSG and the reading of the play
-- position (an argument) are not modelled.
--
-- tools/ttntp/ttntp.c, the NTP clock tool. Ntp/Dns has skipname and the query and the answer of resolve,
-- Ntp/Records shift_file and shift_records on lists of login records, with times as 32-bit patterns.
-- Fuel: a round of skipname moves on by a byte at least, and one of the labels' loop takes a byte of the
-- name. The NTP exchange and setclock (doubles), sockets and files are not modelled.
--
-- driver-tlk/tlk.c, the transputer links. Tlk has the interface to the registers and the kernel's sleep,
-- and tlk_wait; Tlk/Move tlkread and tlkwrite, Tlk/Control the adapters, tlkopen, tlk_reset and tlkioctl,
-- Tlk/Info tlkdriverinfo, Tlk/Diag tlk_diag. A wait without a time limit may go on for ever: the waits
-- and the diagnosis have fuel and a result for its end. A round of a wait is one tick of its time limit,
-- and one of the diagnosis a poll that counts against TLK_DIAG_LIMIT. Tlk/Ready has what a wait tells of
-- the status registers. The pauses between polls, which take time only, are not modelled.
--
-- driver-dp/dp.c, the DaynaPORT SCSI/Link network adapter. Dp has the SCSI half (dp_kick, the start of
-- the head in dpSTART, dpstrategy), Dp/Streams the frames (dp_xmit, en_wproc, en_rproc, en_send_up),
-- Dp/Done the ends of commands (dp_async_done, dpSTART), Dp/Proto the requests (en_proto, en_ioctl,
-- enwput, enrsrv), Dp/Open and Dp/Close dpfind, dp_linit, enopen, enclose, dp_poll and dp_unload, Dp/Info
-- dpdriverinfo and dp_load's addresses. Dp/Life has the driver's life as steps, with messages that do not
-- flush a write queue and frames of 1500 bytes of data at most, the other files its theorems. What the
-- SCSI core does at the end of a command is a step, as the comment above dpSTART tells it; allocb() and
-- canput() are a list of answers, what goes up a log, and what the commands of the bring-up return an
-- argument. The numbers of sys/dlpi.h, which is not in the repository, are a parameter. Fuel: a round of
-- the receive loop passes seven bytes at least of the 3072; en_wproc has its 16 tries and the bring-up
-- its 101 attempts. The list of ifstats and messages on the console are not modelled.
--
-- Base has what these share: names of the libraries, Boolean tests, lists by native numbers, bits, masks,
-- byte buffers, C's int as a bit pattern, and the lemmas on them. The other subsystems (dlm, the nu
-- network driver, the USB driver, the X servers, the other tools and the ports) are not modelled.
pub mod Base
pub mod Amx
pub mod Midi
pub mod Ufs
pub mod Dhcp
pub mod Snd
pub mod Ntp
pub mod Tlk
pub mod Dp

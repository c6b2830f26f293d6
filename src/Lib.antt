-- ===== src/Lib.antt =====
-- EmerGen-Z: a Gen-Z subsystem for the Linux kernel, and a driver for a fabric of virtual machines
-- over QEMU's IVSHMEM device. This library models its C code as functions on explicit states, and
-- proves what they do.
--
-- The program has two kernel modules' worth of parts. subsystem/ has the generic part: the
-- component classes (genz_class.c), the Gen-Z bus with one device for each PCI slot (genz_bus.c),
-- and core structures and character devices (genz_device.c). shim_bridge/ has the transport and a
-- driver on it: every client of the IVSHMEM server owns a mailslot in shared memory (fee.h,
-- fee_adapter.c); a sender fills its own slot and rings the receiver's doorbell (fee_IVSHMSG.c);
-- the receiver's interrupt handler (fee_MSI-X.c) finds the sender by the vector, lets the link
-- layer answer what is meant for it (fee_link.c), and leaves the slot to a reader otherwise; the
-- bridge driver (gf_bridge.c) gives a user program open, read, write and poll on that.
-- netlink/kuns.c is a program of its own, which prints the kernel's hotplug messages.
--
-- Where each part stands:
--
-- Base, Text: numbers, lists, error numbers; C strings, decimal numbers, sprintf and sscanf on
--   the formats of the sources (Text/Format, with the round trip in Text/Format/RoundTrip), and
--   snprintf into an array (Text/Buffer).
-- Fee: the structures of shim_bridge/fee.h, and commands that pass on one adapter and the world,
--   which is the shared slots by address, the core structures by address and the static variable
--   of fee_IVSHMSG.c. A run ends with a value, or in a fault where a NULL or freed pointer is
--   followed.
-- Outgoing: FEE_create_outgoing. Outgoing/Wait has the end of its loop, Outgoing/Deliver what
--   becomes of a message, Outgoing/Frame what stays as it was, Outgoing/Clock the comparison of
--   jiffies, Outgoing/Liveness when a message gets out. No lock is held between the last test of
--   the own slot and its filling: FEE_create_outgoing counts them as one piece, and
--   Outgoing/Amid has an interrupt in between.
-- Incoming: FEE_await_incoming and FEE_release_incoming.
-- Mailbox: calculate_mailslot of fee_adapter.c; Mailbox/Geometry has the layout of the slots.
-- Link: FEE_link_request. Link/Frame has the lock, Link/Replies the size of the answers,
--   Link/Write a CTL-Write from its text to the core structure, Link/Acknowledge its answer.
-- Msix: Msix/Handler is all_msix, with its theorems in Msix/Deliver; Msix/Setup is FEE_ISR_setup
--   and FEE_ISR_teardown, with their theorems below it.
-- Bridge: Bridge/File has gf_bridge_open, gf_bridge_flush, gf_bridge_release and gf_bridge_poll,
--   Bridge/Read gf_bridge_read, with whatever the interrupts of the client do between its copies
--   and its release (nothing, in gf_bridge_read itself), and Bridge/Write gf_bridge_write, each
--   with its Laws; Bridge/Sysfs has gf_bridge_sysfs_read and gf_bridge_sysfs_write,
--   Bridge/Module gf_bridge_init and gf_bridge_exit, whose composition is in
--   Bridge/Module/RoundTrip.
-- Subsystem: Subsystem/Class is genz_class.c, Subsystem/Bus and Subsystem/Init are genz_bus.c,
--   where the root device is NULL, a device or an ERR_PTR, Subsystem/Device is genz_device.c
--   with core structures (Core), the data and the unregistration of character devices (Chrdev),
--   their registration (Register, with the existence of a registered device in
--   Register/Existing) and their default sysfs callbacks (Sysfs).
-- Drivers: FEE_register and FEE_unregister of fee_register.c, over the list of adapters.
--   Drivers/Laws has the binding, Drivers/Release the unbinding, Drivers/RoundTrip both.
-- Adapters: the creation and destruction of adapters in fee_adapter.c, with the mapping of their
--   BARs.
-- Probe: FEE_init_one of fee_pci.c, from the enabled device to the listed adapter, and
--   FEE_remove_one, whose theorem is in Probe/Remove; Probe/Twice has two removals with one core
--   structure. Probe/History has FEE_init and FEE_exit, with the PCI core as a parameter, and
--   the list of adapters over any probes and removals that the core makes. An adapter that was
--   destroyed without being taken off the list stays in it as an entry without a device, pdev
--   being NULL, and a walk that comes to it ends in a fault, as does one over freed memory;
--   Probe/Walk has the walks over a list without such entries, Probe/History/Stale what such an
--   entry costs.
-- Exchange: one message from a write on the sender to a read on the receiver. Exchange/Send has
--   the restarts of sending, Exchange/Write the write, Exchange/Ordinary the texts that the link
--   layer leaves alone, Exchange/Receive the interrupt and the read, Exchange/Path their
--   composition; Exchange/Amid has a message that arrives during a read.
-- Fabric: all clients of a server as a system of steps on one shared region, with the interrupts
--   that are due: the last step of sending, the interrupt, the link layer and the read. The last
--   step of sending, and the read from its wait to its release, count as one piece each, though
--   an interrupt of the same client can come into either, as Outgoing/Amid and Exchange/Amid
--   show. No step makes a client anew. The waits of a client only read the region, so that they
--   are no steps of their own. All clients count as mapping the region at one address.
--   Fabric/Effects has what one step changes, Fabric/Refine the refinement of mailboxes, event
--   by event, Fabric/Start the clients as FEE_adapter_create makes them, Fabric/Stranded a
--   message that is overtaken.
-- Netlink: the loop of netlink/kuns.c over the strings of a message, and the loop over the
--   messages, with the sockets as parameters.
-- Examples: the theorems at concrete machines and messages.
--
-- Machine integers are written with their wrap-around: an int is a signed number with the
-- conversions of Base/Int, and 64-bit arithmetic is taken modulo 2^64 where it can leave its range.
-- Pointers are addresses, none for NULL. In FEE_remove_one running out of fuel counts as a fault.
-- What the kernel decides is a parameter: the clock and the sleeps, what the other clients write
-- meanwhile, whether memory can be had, what the PCI core, the driver core and the copies to and
-- from user space return.
--
-- The one unbounded loop is the wait of FEE_create_outgoing. It runs on fuel for 5 HZ + 2 rounds:
-- each sleep ends in a later jiffy, and the wait is over after 5 HZ jiffies, so that the fuel is
-- never used up, which Outgoing/Wait shows. All other loops run over a table, a list or a number of
-- rounds that the code fixes, and the restarts of a write are at most two; that of netlink/kuns.c
-- over the strings of a message has a round for each byte, of which every string takes one or more.
--
-- Not modelled: the callbacks of genz_bus.c that only log and return a constant; the Python
-- programs of netlink/; subsystem/drivers.base.base.h, a copy of a kernel header;
-- subsystem/genz_routing_fabric.h, declarations that nothing computes with; and log messages.
pub mod Base
pub mod Text
pub mod Fee
pub mod Outgoing
pub mod Mailbox
pub mod Link
pub mod Msix
pub mod Incoming
pub mod Bridge
pub mod Subsystem
pub mod Drivers
pub mod Adapters
pub mod Probe
pub mod Netlink
pub mod Exchange
pub mod Fabric
pub mod Examples

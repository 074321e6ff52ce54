-- ===== src/Lib.antt =====
-- The hypervisor layer that runs rump kernels as Xen guests (rumpuser-xen): a cooperative kernel
-- on one virtual CPU, after Mini-OS (xen/), and the hypercalls that a rump kernel makes of it
-- (rumphyper_*.c).
--
-- Parts. The scheduler keeps the threads; the synchronisation hypercalls build mutexes, reader and
-- writer locks and condition variables on it, and the C library's light-weight processes are threads
-- of it too; the grant table hands out pages to other domains, and the grant map takes theirs in;
-- events from the hypervisor and other domains arrive on ports, each with a handler; the page
-- allocator hands out the memory that all of them use, and malloc cuts it into blocks; the console's ring carries bytes to and from
-- a daemon; XenStore, where the devices are set up, is reached over two rings, one thread taking the
-- answers, and processes of the rump kernel reach it through a device; packets from the network
-- wait in a ring for a thread that delivers them; block devices are opened by name.
--
-- Files, with the functions of the source under their own names, less a prefix such as rumpuser_
-- or gnttab_:
--   Prelude     names, tests and lists that all files share
--   Sched       xen/sched.c, xen/arch/x86/sched.c, include/mini-os/sched.h, include/mini-os/time.h
--   Synch       rumphyper_synch.c
--   GrantTable  xen/gnttab.c
--   GrantMap    xen/gntmap.c, include/mini-os/gntmap.h
--   Lwp         lib/_lwp.c
--   Events      xen/events.c, and the callback in xen/hypervisor.c
--   Pages       xen/mm.c
--   Malloc      lib/memalloc.c, and rumpuser_malloc and rumpuser_free of rumphyper_base.c
--   XenStore    xen/xenbus/xenbus.c, include/mini-os/xenbus.h
--   BusDev      rumpxendev/busdev.c
--   BlkFront    xen/blkfront.c, the segments of a request
--   Packets     rumphyper_net.c
--   Blocks      rumphyper_base.c, the block devices
--   ConsoleRing xen/console/xencons_ring.c, and xencons_rx and console_print of
--               xen/console/console.c
--
-- How state and operations correspond. A struct is a record, its pointers are the addresses of
-- cells in a store, 0 for NULL, and a TAILQ is the list of its elements. Since threads are not
-- preempted, a function runs from its call, or from a return of schedule() inside it, to the next
-- call of schedule() or to its end, and each such part is a function here: wait and wait_resume,
-- join_thread and join_resume, mutex_enter, mutex_enter_loop and mutex_enter_resume. Local interrupt
-- masking around a few statements leaves no trace. Words keep their wrap-around: int and s_time_t
-- are bit patterns, the latter compared with a sign. A request of XenStore's device that has to wait for an
-- identifier or for room on the ring is asleep, and its run is not followed further.
--
-- Fuel. The loop of schedule() that waits for a ready thread takes fuel, one unit for each scan of
-- the list; with a ready thread on it one unit is enough. The loops of the grant table that race
-- with another domain run over the list of the values that they read. The loop of the console's input
-- takes one unit of fuel for each byte that waits. The demultiplexing of events has 65 units for each
-- word, one more than its bits. The loop that fills the free lists has a unit for each page, the one
-- that writes a message to XenStore one for each byte and each request, the search for an identifier
-- one for each. The search of malloc for a block size has 28 doublings, one more than there are until
-- its word overflows. A write to XenStore's device has a unit for each byte, those in the buffer
-- included, and a read has one more than the bytes it asks for. The loop that waits for the console's
-- daemon has one try for each byte, and the one that looks for line ends a step for each character.
--
-- Not modelled: httpd, which is a copy of another project's code; the rest of the device
-- front ends, block I/O and the other hypercalls of rumphyper_base.c, the requests of XenStore's protocol,
-- the formatting of text and the assembly. Xen's headers are parameters, and so are the hypervisor's answers,
-- the daemons of other domains, and the front end that sets a block device up. Memory that the page
-- allocator reads as bitmap behind the bitmap's end is taken to be all ones.
pub mod Prelude
pub mod Sched
pub mod Synch
pub mod GrantTable
pub mod GrantMap
pub mod Lwp
pub mod ConsoleRing
pub mod Events
pub mod Pages
pub mod XenStore
pub mod Packets
pub mod Blocks
pub mod Malloc
pub mod BusDev
pub mod BlkFront

-- ===== src/Lib.antt =====
-- The networking kernel urchin (src/*.rs), a kernel in Rust that runs on x86_64 under a hypervisor, takes
-- packets from virtio network devices and answers ARP and ICMP. The kernel is built with
-- `cargo build --release` (build.sh): its arithmetic wraps, and a shift takes its amount modulo the width.
-- A panic is `none`, or a constructor `panic`.
--
-- The parts and how they meet. `start_rust` finds each virtio device on the command line, starts its
-- driver, registers its interrupt handler, and registers its addresses in the tables. An interrupt goes
-- through the descriptor table to the handler of its line: that of a device passes the received frames to
-- the nodes, that of the timer queues the tasks whose timers have expired, which the executor then polls.
-- A virtio queue (src/devices/virtio.rs) hands buffers (src/devices/buffer.rs) to the device and takes
-- them back. A frame taken from a device goes through the processing nodes of src/net, which look
-- addresses up in the tables of src/net/fib.rs. The ring buffer (src/ringbuf.rs) is for several producers
-- and one consumer, and nothing uses it yet. The spinlock (src/spinlock.rs) guards the tables and queues.
-- The compiler calls the memory routines at the end of src/lib.rs.
--
--   Prelude            what the others share: words, sequences, maps, bit operations as arithmetic
--   Ring               src/ringbuf.rs: `RingBuffer`. Ring/Queue is the queue that it stands for, Ring/Slots
--                      the slots in use, Ring/Race a schedule of two threads
--   Mem                src/lib.rs: `memcmp`, `bcmp`, `memset`, `memcpy`, `memmove`
--   Kernel             src/lib.rs: what `start_rust` registers for an interface, and Kernel/Routes what the
--                      tables then hold. Kernel/Devices joins the boot parameters with the command line
--   Kernel/Start       src/lib.rs: `start_rust` up to its loop. Kernel/Network has `NET_IFACES` and the handlers of
--                      the devices, Kernel/Nodes `PROC_NODES`
--   Kernel/MainLoop    src/lib.rs: the loop of `start_rust`, with interrupts, as a step relation.
--                      Kernel/TestTask has the tasks that it polls, Kernel/MainLoop/Serves a packet from the
--                      vector of a device to the reply
--   Kernel/Receives    from an interrupt of a device to the ARP reply; Kernel/Pings to the echo reply
--   Boot               src/bootparams.rs
--   Interrupt          src/interrupt.rs, and `interrupt_handler` of src/lib.rs
--   Asynchronous       src/asynchronous: `TimerFuture`, `check_timerfutures_from_interrupt`, `Executor`
--   Arch/Io            src/arch/x86_64/io.rs: the machine, and values that are moved in halves
--   Arch/Apic          src/arch/x86_64/apic.rs: the descriptor table, the local APIC, the I/O APIC
--   Arch/Kvmclock      src/arch/x86_64/kvmclock.rs: the loops over the pages that the host writes
--   Arch/Mptable       src/arch/x86_64/mptable.rs: the table of processors
--   Arch/Calendar      src/arch/x86_64/kvmclock.rs: `get_calendar_from_epoch`, against the Gregorian calendar
--                      of Arch/Calendar/Gregorian
--   Spinlock           src/spinlock.rs: `RawSpinlock`, with threads as a step relation
--   Devices/Netif      src/devices/netif.rs: what an interface is to the others, its id and its address
--   Devices/Serial     src/devices/serial.rs, src/console.rs
--   Devices/Buffer     src/devices/buffer.rs: `Buffer`; the allocator is a parameter
--   Devices/Virtqueue  src/devices/virtio.rs: `Virtqueue`, with the fields that the device writes
--   Devices/VirtioDevice
--                      src/devices/virtio.rs: the trait `VirtioDevice`
--   Devices/VirtioMmio src/devices/virtio/mmio.rs: `VirtioMMIO`. Devices/VirtioMmio/Cmdline
--                      is its `new`, which reads the command line
--   Devices/VirtioNet  src/devices/virtio/net.rs: `VirtioNet`, on any transport
--   Net/Mac            src/net/ethernet.rs: `MacAddress`
--   Net/Ipv4Address    src/net/ipv4.rs: `Ipv4Address`
--   Net/Ipv6Address    src/net/ipv6.rs: `Ipv6Address`
--   Net/Fib            src/net/fib.rs: the forwarding tables and the tables of neighbours, as one state
--   Net/Node           src/net/mod.rs: the frames that a node is given; the state that the nodes change, which is
--                      the tables and what was sent; `PROC_NODES` of src/lib.rs is an argument
--   Net/Frame          the packed structs that the nodes lay over the bytes of a frame
--   Net/Ethernet       src/net/ethernet.rs: `EthernetIn`, `generate_ether_header`
--   Net/Arp            src/net/arp.rs: `ArpIn`, `generate_arp_packet`. Net/Arp/Spoof is a sender that names the
--                      kernel's own address
--   Net/Checksum       src/net/ipv4.rs: the loops and folds of the checksum
--   Net/Ipv4In         src/net/ipv4.rs: `Ipv4In`
--   Net/Icmpv4         src/net/ipv4.rs: `Icmpv4InLocal`, `generate_ipv4_header`. Net/Icmpv4/Reply has the reply to
--                      an echo request and its checksums, Net/Icmpv4/Built builds it, Net/Icmpv4/Answer reads it
--   Net/Ipv6In         src/net/ipv6.rs: `Ipv6In`
--   Net/Icmpv6         src/net/ipv6.rs: `Icmpv6InLocal`, `generate_ipv6_header`
--
-- Bounds and fuel. `get` and `reserve` of Ring run on rounds: alone, one round is enough, and a full ring
-- is waited for however many rounds there are. `pop` has 2 ^ 16 rounds, more than the used index can
-- be ahead. The loops over frames and bytes recur on the frames or on the number of rounds, and the
-- lookups of Net/Fib on the length, from at most 32 or 128.
--
-- A driver's `pre_xmit` is a parameter of the nodes: the slice of a new buffer that has room for the number
-- of bytes asked for. Text that the kernel prints is left out.
--
-- What the hardware and other crates do is a parameter: the instructions and registers of the machine
-- (Arch/Io), the bus of the virtio registers, the memory of the tables of the firmware, the allocator's
-- answers, and `ArrayQueue` of the crossbeam_queue crate, with the laws of its documentation. The loops that
-- wait for the host or for the hardware, and `run` of the executor, have fuel: `run` needs a round for each
-- queued task and one more, the loop over the clock's page a round for each that the host disturbs and one
-- more, and the count of processors one for each entry and one more. A test task has three steps in one
-- poll, more than it takes from one timer to the next; a run of the body of the main loop has a round for
-- each queued task and one more. The other loops recur on the number of their rounds.
--
-- Not modelled: what is only printed, and its formatting; the start of the allocator; the stack frame of an
-- interrupt; the names of ports and registers that nothing uses. Frames that nodes send are kept in the
-- state, in order; that the driver puts a frame in its transmit queue is `VirtioNet.xmit`,
-- which Devices/VirtioNet/Transmit joins with the slice of `pre_xmit` that the frame was written into.
pub mod Arch
pub mod Asynchronous
pub mod Boot
pub mod Devices
pub mod Interrupt
pub mod Kernel
pub mod Mem
pub mod Net
pub mod Prelude
pub mod Ring
pub mod Spinlock

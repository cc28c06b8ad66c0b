-- ===== src/Net.antt =====
-- The network part of the kernel, src/net.
pub mod Frame
pub mod Node
pub mod Sample
pub mod Ethernet
pub mod Arp
pub mod Checksum
pub mod Ipv4In
pub mod Icmpv4
pub mod Ipv6In
pub mod Icmpv6
pub mod Bytes
pub mod Mac
pub mod Ipv4Address
pub mod Ipv6Address
pub mod Mask
pub mod Fib

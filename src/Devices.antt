-- ===== src/Devices.antt =====
-- The devices of the kernel, src/devices.
pub mod Netif
pub mod Serial
pub mod Buffer
pub mod Virtqueue
pub mod VirtioDevice
pub mod VirtioNet
pub mod VirtioMmio

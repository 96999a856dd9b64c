-- ===== src/Tests.antt =====
-- Concrete devices, messages, sockets and kernels, on which the theorems are applied.
pub mod Data
pub mod Messages
pub mod Network
pub mod Packets
pub mod Endpoints
pub mod Gadget
pub mod Events
pub mod Attaching
pub mod Networking
pub mod Core

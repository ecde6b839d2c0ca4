-- ===== src/Peripherals.antt =====
-- The devices on the bus (src/memory.c, src/uart.c, src/tohost.c, src/peripheral.c).
pub mod Types
pub mod Memory
pub mod Uart
pub mod Tohost
pub mod Generic

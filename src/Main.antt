-- ===== src/Main.antt =====
-- venta/main.c: the main loop, the network thread, and the push of the sensor values.
pub mod Start
pub mod Push
pub mod Reports
pub mod Loop
pub mod Locking
pub mod Delivery
pub mod NetworkThread
pub mod Polling
pub mod Threads
pub mod Signals
pub mod Accesses

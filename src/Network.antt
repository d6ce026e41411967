-- ===== src/Network.antt =====
-- venta/network.c, but for the scene table: requests, their answers, and the humifier's buttons.
pub mod Action
pub mod Http
pub mod Json
pub mod Parse
pub mod Commands
pub mod Safe
pub mod Uri
pub mod Dump

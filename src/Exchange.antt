-- ===== src/Exchange.antt =====
-- The trading simulator of Phase_4: orders, the pool that holds them, the limit order book, the
-- matching engine, the order manager and the trade log.
pub mod Order
pub mod Pool
pub mod Levels
pub mod Book
pub mod Matching
pub mod Manager
pub mod Logger
pub mod Simulation
pub mod Feed
pub mod Latency
mod Examples

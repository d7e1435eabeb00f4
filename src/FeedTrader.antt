-- ===== src/FeedTrader.antt =====
-- The trading strategy of Phase_3: it reads a feed of market events, keeps a snapshot of the price
-- levels and the orders of its own, and sells when the best bid is high enough.
pub mod Snapshot
pub mod Orders
pub mod Feed
pub mod Strategy
mod Examples

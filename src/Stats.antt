-- ===== src/Stats.antt =====
-- server/stats.c: the maps that the server keeps of its hosts and what it computes of them.
pub mod Host
pub mod Tag
pub mod Rates
pub mod Totals
pub mod Group
pub mod View

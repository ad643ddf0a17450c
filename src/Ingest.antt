-- ===== src/Ingest.antt =====
-- internal/ingest/service.go: Handle, from a request to an envelope in the publisher's buffer. The
-- REST client behind the interfaces deviceResolver and channelCreator, and the clock, are the
-- record `Remote` over a state of the outside world. Ingest/Threads.antt has the accesses of Handle
-- one by one, among those of other goroutines. Log lines are left out.
pub mod State
pub mod Lookup
pub mod Channels
pub mod Handle
pub mod Found
pub mod Kept
pub mod Same
pub mod Ensured
pub mod Untouched
pub mod Served
pub mod Complete
pub mod Cached
pub mod Threads
pub mod Summary

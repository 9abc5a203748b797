-- ===== src/Grab.antt =====
-- The package grab: the client that downloads one file. The gauge and the copy loop of the package
-- are in Gauge and Transfer.
pub mod Errors
pub mod Names
pub mod Response
pub mod Client

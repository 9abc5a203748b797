-- ===== src/Tests.antt =====
-- Each property at a concrete input, and runs of the definitions.
mod Fixtures
mod Channels
mod Managers
mod Systems
mod Gauges
mod Transfers
mod Restarts
mod HeaderFiles
mod Grabs
mod Sizes
mod Attempts

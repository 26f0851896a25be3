-- ===== src/Tests.antt =====
-- Concrete inputs for the theorems, and small runs of the code.
mod Samples
mod Health
mod Pool
mod Chain
mod Routing
mod System
mod Fates
mod Cli
mod Capture
mod Conversation
mod Stats
mod Checks
mod Logger
mod Live
mod Exchange
mod Process
mod RequestLog
mod MockBackend

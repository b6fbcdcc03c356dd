-- ===== src/Tests.antt =====
-- Runs of the model at concrete inputs, and the theorems applied there.
mod Registry
mod Context
mod Stat
mod Proxy
mod Concurrent
mod Listen
mod Window
mod Wire
mod Config
mod Codec
mod Application
mod Lifecycle
mod Answers
mod Success
mod Dispatcher
mod Zk
mod Center

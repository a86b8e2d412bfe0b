-- ===== src/Sandbox.antt =====
-- src/runtime/sandbox: how a tool's command is confined, from the start of the server to the
-- wrapper that installs the restrictions and starts the command.
pub mod Kernel
pub mod Landlock
pub mod Policy
pub mod Init
pub mod Bwrap
pub mod Floor
pub mod Cgroup

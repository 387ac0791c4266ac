-- ===== src/Applier.antt =====
-- pkg/applier: applying a changeset to the host. systemd, Podman, the file system and the hooks' HTTP
-- endpoints are the environment, whose answer to a call may depend on every call made before it. A run
-- keeps the calls made so far with their outcomes, the newest first, beside the apply's result.
pub mod Types
pub mod Phase
pub mod Restart
pub mod Hooks
pub mod Builds
pub mod Triggers
pub mod Apply
pub mod Observe
pub mod Sorted
pub mod Started
pub mod Failure
pub mod SelfUnits
pub mod Retry
pub mod DryRun
pub mod Files
pub mod Fixtures
mod Tests

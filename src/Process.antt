-- ===== src/Process.antt =====
-- The provisioner's main loop, main.go: `connectWithRetry`, `loadConfig`, `processConfig`,
-- `runOnce`, `runWatchMode`, and what is logged of the config.
pub mod Connect
pub mod Load
pub mod Server
pub mod Pass
pub mod Watch
pub mod Summary
pub mod DryRun
pub mod ConnectLaws
pub mod ReachLaws
pub mod Achieves
pub mod OnceLaws

-- ===== src/Examples.antt =====
-- Concrete runs: each theorem with hypotheses applied to data on which they hold.
mod Wire
mod Media
mod Requests
mod Cameras
mod Settings
mod Viewers
mod Provisioning
mod Pages
mod Files
mod Answers

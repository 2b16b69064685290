-- ===== src/Tests.antt =====
-- Runs of the model at concrete inputs.
mod Text
mod Jobs
mod Lives
mod Streams
mod Threads
mod Plugins
mod Natives
mod Handles

-- ===== src/Job.antt =====
-- src/job.h and src/job.cpp: one request, over all its attempts.
pub mod State
pub mod Files
pub mod Upload
pub mod Finish
pub mod Receive
pub mod Options
pub mod Progress
pub mod Retry
pub mod Attempt
pub mod Cases
pub mod Success
pub mod History
pub mod Completion
pub mod Keeping
pub mod Phases
pub mod Turns
pub mod Uploading
pub mod Bodies
pub mod Delay
pub mod Streaming
pub mod Writing
pub mod Download
pub mod Delivery
pub mod Throttle
pub mod Disposal

-- ===== src/Tests.antt =====
-- Runs of the models on concrete inputs.
mod Blobs
mod Frames
mod Records
mod Exchanges
mod Builds
mod Sweeps
mod Campaigns
mod Payloads
mod Answers
mod Summaries
mod Registers
mod Outputs
mod Runners

-- ===== src/Tests.antt =====
-- Runs of the definitions at fixed inputs, and the theorems at inputs that meet their hypotheses.
mod Queue
mod Capture
mod Utils
mod Storage
mod Config
mod Writer
mod Journal
mod Paths
mod Program
mod WebSock
mod Media
mod Detector

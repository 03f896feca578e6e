-- ===== src/Tests.antt =====
-- Runs on concrete data, and each theorem at an input that meets its hypotheses.
mod Toy
mod Codes
mod Walks
mod Containers
mod Payloads
mod Journals
mod Home
mod Folders
mod Apps

-- ===== src/Tests.antt =====
-- Runs of the definitions on concrete input, and the theorems applied to it.
pub mod Sample
mod Holds
mod Schema
mod Operations
mod Processes
mod Interleaved
mod Orders
mod Values
mod Provider
mod Commands
mod Pages
mod Requests
mod Client

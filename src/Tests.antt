-- ===== src/Tests.antt =====
-- Tests of the definitions, and the theorems at concrete inputs.
mod Platforms
mod Requests
mod Values
mod Device
mod Streaming
mod Flight
mod Sweep
mod Transform
mod Lists
mod Reopen
mod Runs
mod Service
mod Texts
mod Application

-- ===== src/Requests.antt =====
-- The control requests of src/lib/hackrf/hackrf.c: each module holds functions that validate their
-- arguments, make one transfer to the device and turn its outcome into a result code. The argument
-- `dev` is `device->usb_device`.
pub mod Version
pub mod Registers
pub mod Flash
pub mod Tuning
pub mod Gains
pub mod Info
pub mod InitSweep
pub mod Boards
pub mod Commands
pub mod Protocol
pub mod Refines
pub mod Bounds
pub mod Quiet

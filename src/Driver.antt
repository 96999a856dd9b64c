-- ===== src/Driver.antt =====
-- driver.c: the part that talks to the device. A handler is an action on `DriverState`.
pub mod State
pub mod Request
pub mod Callbacks
pub mod Interfaces
pub mod Dispatch
pub mod Sending
pub mod Sound
pub mod Copying
pub mod Offering
pub mod Cleanup
pub mod Adding
pub mod Dispatching
pub mod Probe
pub mod Completion
pub mod Reset
pub mod Module
pub mod Starting
pub mod Refinement
pub mod Watching
pub mod Switching
pub mod Selecting
pub mod Receiving
pub mod Serving
pub mod Freeing
pub mod Finishing
pub mod Running
pub mod Networking

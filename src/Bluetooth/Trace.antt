-- ===== src/Bluetooth/Trace.antt =====
-- Which commands the functions of bluetooth.c send, whatever the controller answers.
pub mod Acts
pub mod Single
pub mod Init
pub mod Sending
pub mod Typed
pub mod Fitted

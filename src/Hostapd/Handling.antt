-- ===== src/Hostapd/Handling.antt =====
-- What one run of a handler does to the connection and the semaphore.
pub mod Requests
pub mod Handlers

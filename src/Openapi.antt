-- ===== src/Openapi.antt =====
-- How the services are called (openapi): the retry of throttled calls and the waiting for a result.
pub mod Throttling
pub mod Retry
pub mod Waiter

-- ===== src/Clients.antt =====
-- tms/clients: the circuit breaker of the outbound calls, and what a status means.
pub mod Circuit
pub mod Errors

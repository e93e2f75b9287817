-- ===== src/Safety.antt =====
-- apps/api/src/modules/safety: the safety modes, the capability matrix and the circuit breaker.
pub mod Capability
pub mod Matrix
pub mod Mode
pub mod Lifecycle
pub mod Steady
pub mod Breaker
pub mod Severity
pub mod Isolation
pub mod Exit
pub mod Gate
pub mod Ready
pub mod Containment
pub mod Recovery
pub mod Lifted

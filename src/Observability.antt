-- ===== src/Observability.antt =====
-- observability/: the correlation id of a request, the metrics and the validation of bodies.
pub mod Requests
pub mod Metrics
pub mod Validation

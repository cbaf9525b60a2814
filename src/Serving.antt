-- ===== src/Serving.antt =====
-- Model routes, the two-stage cascade and the severity of an alert: `resolve_route` of
-- backend/app/inference/model_registry.py, backend/app/inference/predictor.py and explanations.py,
-- backend/app/detection/severity.py and device_profiles.py.
--
-- A model is a function that may raise. A probability is a binary64 pattern (Schema): the order of
-- the patterns is the order of the non-negative floats. Latencies are left out.
pub mod Registry
pub mod Inference
pub mod Severity

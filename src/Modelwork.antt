-- ===== src/Modelwork.antt =====
-- services/modelwork: calibrated confidence, novelty, the cold-start ramp and the outcome of a field.
pub mod Errors
pub mod ColdStart
pub mod Runtime
pub mod Stratum
pub mod Novelty
pub mod Calibration
pub mod Encoding
pub mod Logistic
pub mod Training
pub mod Routing
pub mod Payloads
pub mod Features
pub mod Pipeline
mod Tests
mod PipelineTests
mod SplitTests
pub mod Splits

-- ===== src/Tests.antt =====
-- Runs of the model on concrete data, and the theorems at concrete inputs.
pub mod Scenario
pub mod EngineExamples
pub mod RulesExamples
pub mod CodecExamples
pub mod NetExamples
pub mod ChainExamples
pub mod DigestExamples
pub mod RelayExamples

-- ===== src/Engine.antt =====
-- The inference engine, src/py-inference/src/inference/engine.py.
pub mod State
pub mod Sections
pub mod Moves
pub mod Requests
pub mod Tasks
pub mod System
pub mod Rules
pub mod Accounting
pub mod Lock
pub mod Leaving
pub mod Progress
pub mod Phases
pub mod Owners
pub mod Release
pub mod Flags
pub mod Safety
pub mod Commitment
pub mod Yield
pub mod Cores
pub mod Lifecycle
pub mod Guarantees
pub mod Completion
pub mod Races
pub mod Schedules
pub mod Vram
pub mod Gpu
pub mod Sampling
pub mod Creation
pub mod Children
pub mod Kills
pub mod Outputs
pub mod Streaming
mod Examples
mod LifeExamples
mod ProcessExamples
mod RaceExamples

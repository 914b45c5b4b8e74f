-- ===== src/Validator.antt =====
-- The validator of scripts/ai_config/validator.py. A configuration is what its YAML says, with values
-- of the types that the report declares for them; what the messages say is left out.
pub mod Integers
pub mod Times
pub mod Config
pub mod Agents
pub mod Upgrade
pub mod HardFork
pub mod Report

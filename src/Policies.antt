-- ===== src/Policies.antt =====
-- The policies of an assembly (policies), and the middlewares lib/cors and lib/error-handler.js. What
-- a policy calls of its `flow` and changes of its context is a value.
pub mod Switch
pub mod Loader
pub mod Variables
pub mod Validate
pub mod Cors
pub mod Errors
pub mod Tests

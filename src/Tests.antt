-- ===== src/Tests.antt =====
-- Runs of the model at concrete inputs, and the theorems at inputs that meet their hypotheses.
mod Names
mod Pages
mod Engines
mod Queues
mod Lives
mod Runtimes
mod Requests
mod Routes
mod Services
mod Betas
mod Decodes
mod Tokens
mod Commands

-- ===== src/Tests.antt =====
-- Runs of the models on concrete data.
mod Books
mod Builds
mod Requests
mod Uploads
mod Runtimes
mod Workers
mod Fetches
mod Backups
mod Registries
mod Sweeps
mod Keys
mod Monitors

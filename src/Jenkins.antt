-- ===== src/Jenkins.antt =====
-- internal/ci/jenkins: what the fetcher reads off a controller.
pub mod Walk
pub mod Triggers
pub mod JobConfig
pub mod Credentials
pub mod Client
pub mod Urls
pub mod Jobs

-- ===== src/Examples.antt =====
-- A small platform that runs, tests of the models on it, and the theorems at inputs on it.
mod AppViews
mod NoticeDisks
mod SourceMaps
mod OauthPanels
mod Fixture
mod Policies
mod Builds
mod SandboxEntries
mod Encoding
mod Services
mod Startups
mod Launchers
mod Transports
mod Proxies

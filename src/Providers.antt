-- ===== src/Providers.antt =====
-- pkg/providers: the statuses, the provider interface and the manager that routes to a provider.
pub mod World
pub mod Status
pub mod Manager
pub mod Pings

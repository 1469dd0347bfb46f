-- ===== src/Config.antt =====
-- pkg/config and the handling of flags in cmd/virtual_kubelet: the settings.
pub mod Settings
pub mod Urls
pub mod Sources
pub mod Laws
pub mod Schemes
pub mod Precedence

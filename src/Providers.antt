-- ===== src/Providers.antt =====
-- The choice of a provider and a model: shared/provider_types.py and cli/providers/registry/.
pub mod Models
pub mod Registry
pub mod Selection
pub mod Order
pub mod Chosen
pub mod Upgrade
mod Examples

-- ===== src/Components.antt =====
-- pkg/components: resource types and their recognition (`Kind`), resources (`Resource`), the set
-- of a component's resources (`ResourceSet`), its services (`ServiceConfigs`) and the component.
pub mod Kind
pub mod Resource
pub mod ResourceSet
pub mod SetLaws
pub mod SetKeys
pub mod Manifested
pub mod Applied
pub mod ServiceConfigs
pub mod Component
pub mod Units
pub mod Combined

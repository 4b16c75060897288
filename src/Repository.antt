-- ===== src/Repository.antt =====
-- internal/repository: what is installed on a host (component.go), the sources of components
-- (source.go) and the plain directories of scripts and units (file.go), on the model of a file
-- system in `Disk`. What the TOML parser does is a parameter.
pub mod Host
pub mod Changes
pub mod Source
pub mod Plain
pub mod Keys
pub mod Installed
pub mod Lookup
pub mod Removal
pub mod Written

-- ===== src/Loader.antt =====
-- pkg/loader: the stages that load a component of the host or of the sources, and the two
-- pipelines. A repository and podman's secrets answer as the records `ComponentReader` and
-- `SecretsManager`; the engine of text/template, with the macros, is a parameter, and so is the
-- text that a TOML value may be.
pub mod Stages
pub mod Pipeline
pub mod Keys
pub mod Readers

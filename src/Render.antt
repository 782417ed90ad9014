-- ===== src/Render.antt =====
-- internal/render: the manifests of the commands, and the bundles that are fetched.
pub mod Label
pub mod Instance
pub mod SecretStore
pub mod Bundle

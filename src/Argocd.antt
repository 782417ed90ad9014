-- ===== src/Argocd.antt =====
-- internal/argocd: the tenant-local ArgoCD: its objects, its installation and its API.
pub mod Objects
pub mod Apps
pub mod Skew
pub mod Lifecycle
pub mod Install
pub mod Api

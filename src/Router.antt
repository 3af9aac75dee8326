-- ===== src/Router.antt =====
-- core/router: the patterns of paths (Params), and their registration and the answers that the
-- router intercepts (Serving).
pub mod Params
pub mod Serving

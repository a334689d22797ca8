-- ===== src/Product.antt =====
-- packages/product-projection: views of the canonical log.
pub mod OpenLoops

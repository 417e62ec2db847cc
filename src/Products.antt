-- ===== src/Products.antt =====
-- web/src/pages/ProductsPage.tsx and web/src/pages/ProductFormPage.tsx: the products of a shop.
pub mod List
pub mod Sorted
pub mod Form
pub mod ImageEditor
pub mod Urls
pub mod Crop
pub mod Labels
pub mod View

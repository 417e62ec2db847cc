-- ===== src/Components.antt =====
-- web/src/components.tsx: the choice of products, the picker of receipts and the copy button.
pub mod Labels
pub mod ProductChoices
pub mod ReceiptPicker
pub mod CopyButton

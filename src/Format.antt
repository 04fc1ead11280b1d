-- ===== src/Format.antt =====
-- How values are shown: web/lib/format.ts.
pub mod Age
pub mod AgeLaws
pub mod Money
pub mod MoneyLaws

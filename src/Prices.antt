-- ===== src/Prices.antt =====
-- The prices of cakes, app/services/precos.py, in whole reais: tables of price and people served, and
-- the total of an order, with the exceptions of Python as results. Letter cases are a parameter.
-- The sweets, Sweets, are priced in cents.
pub mod Tables
pub mod Totals
pub mod Drafts
pub mod Additions
pub mod Sweets

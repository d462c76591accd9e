-- ===== src/Tests.antt =====
-- The theorems at concrete inputs, and runs of the model.
mod Runtime
mod Times
mod Totals
mod Rows
mod Calls
mod Handoffs
mod Messages
mod Orders
mod Guards
mod Cakes

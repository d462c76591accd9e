-- ===== src/Schedule.antt =====
-- The store's schedule, app/services/store_schedule.py: the week of the AI, dates, opening hours and
-- the capacity of a slot.
pub mod Week
pub mod Dates
pub mod ServiceDate
pub mod Calendar
pub mod Capacity
pub mod Validation

-- ===== src/Worker/Persons.antt =====
-- workflow-worker applications/modules/person_tracking/processor.py: the report on who is on screen and
-- when. Times are whole milliseconds.
pub mod Intervals
pub mod Identity
pub mod Report
pub mod Checks
pub mod Process

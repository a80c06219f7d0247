-- ===== src/Planning.antt =====
-- libs/planning: the calendar of an organization.
pub mod Model
pub mod Rrule
pub mod Recurrence
pub mod Store
pub mod Repository
pub mod Inputs
pub mod Service
pub mod Series
pub mod Reminders
pub mod Expansion
pub mod Versions
pub mod Creation
pub mod Exceptions
pub mod Splitting
pub mod Ordering
pub mod Marks
pub mod Sweeping
pub mod Turns
pub mod Once
mod Sample
mod Tests

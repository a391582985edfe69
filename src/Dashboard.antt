-- ===== src/Dashboard.antt =====
-- The dashboard (components/dashboard/DashboardSummary.tsx): its dates, its calendar, the times
-- of its tasks and their categories; and its milestone timeline
-- (components/dashboard/DashboardMilestoneTimeline.tsx).
pub mod Dates
pub mod Calendar
pub mod Cells
pub mod Weeks
pub mod Ranges
pub mod RangeDays
pub mod Times
pub mod TimeSums
pub mod Categories
pub mod Colors
pub mod Months
pub mod Timeline
pub mod Lanes
pub mod ColorLaws
pub mod TaskForm
pub mod TaskList

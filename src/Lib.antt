-- ===== src/Lib.antt =====
-- ClipToDocArchive, the web client: the logic of its pages and of its libraries, as functions, with
-- the theorems that make them correct. The client is a set of pages over an HTTP service; each part
-- below holds the state of one page or of one library and changes it by the functions that are
-- modelled here. The pages share the texts, the JSON values and the browser's storage.
--
-- Shared:
--   Prelude (Tests, Lists, Int): tests on numbers and lists, lemmas on lists, integers.
--   Text (Laws, Splits, Order): a string is the list of its UTF-16 code units; trim, split, join,
--     replace and comparison as JavaScript has them. `toLowerCase` is an argument `lower`; where a
--     theorem needs it, the hypothesis `KeepsSmall` says that it keeps each text of code units below
--     128 without capital letters.
--   Json: values as JSON.parse gives them, and the client's reading of an `unknown`.
--   Storage: localStorage that may be absent, unreadable or unwritable, or hold malformed JSON.
--   Sorting (Keys): Array.sort with a comparator, as an insertion sort (the order it gives is the one
--     that any stable sort gives where the comparator is consistent).
--
-- Parts, with the files that they model:
--   Rules (Tokens, Form): frontend/components/rules/RulesWorkspace.tsx. `parse_token_list_input`,
--     `join_token_list` and `to_string_array` are parseTokenListInput, joinTokenList and toStringArray;
--     `parse_rules_json_to_form` and `build_rules_json_from_form` carry the page between the rule JSON
--     and its form. Random row identifiers are an argument.
--   Archive.Preferences: frontend/lib/archive-list-preferences.ts. The columns and the density of the
--     archive list, normalised, loaded from storage and saved.
--   Archive.Presets: frontend/lib/archive-view-presets.ts. Saved views, which use the columns of
--     Archive.Preferences; the clock and the new identifiers are arguments.
--   RichContent: frontend/lib/rich-content.ts. Escaping and normalising of a document's body.
--   Search: frontend/components/search/SearchWorkspace.tsx. Filters, their saved payload, the query.
--   VirtualList: frontend/components/common/VirtualizedList.tsx. The window of rows that is rendered.
--   MindMap: frontend/components/mindmap/MindMapWorkspace.tsx. Which nodes are shown.
--   Media (Loading, Batches, Dropped): frontend/components/media/MediaWorkspace.tsx. Cards of the gallery and its loading in
--     batches: the service is a function from a page number to an answer that may be a failure.
--   Session (Auth, AuthEnds, AuthSettles, Roles, RoleViews): frontend/components/auth/AuthGate.tsx,
--     frontend/components/auth/RoleGate.tsx and frontend/lib/auth.ts. Each gate is a state with the runs
--     of its effect, and functions for each event: a run for a path, the clean-up, the timer, an answer.
--   Review (Selection, Steps, Requests): frontend/components/review/ReviewQueueManager.tsx. The handlers as
--     functions; `Step` relates the pages before and after each event, and what request it sends.
--   Dashboard (Dates, Calendar, Cells, Weeks, Months, Ranges, RangeDays, Times, TimeSums, Categories,
--     Colors, ColorLaws): frontend/components/dashboard/DashboardSummary.tsx. `Date` counts the months
--     since January of the year 0; `new_date` is JavaScript's constructor with days that run on;
--     `build_calendar_cells` is buildCalendarCells behind the parsing of the month's key, and
--     `build_task_list_range` is buildTaskListRange on local days.
--   Users (Requests): frontend/components/admin/AdminUserManager.tsx. The password policy, and the
--     buttons with their guards, up to their requests; numbers of the policy's form are natural numbers.
--   Comments (Answers): frontend/components/documents/DocumentCommentsPanel.tsx. Each handler before its
--     request and on its answer.
--   Api (Outcomes): frontend/lib/api-client.ts. Outcomes of a response, with JSON.parse and
--     JSON.stringify as arguments.
--   Dashboard (Timeline, Lanes): frontend/components/dashboard/DashboardMilestoneTimeline.tsx. Positions
--     in percent are whole multiples of a unit, which can be as fine as wanted.
--   Archive (Documents, Filters, Details, Panel, Listing, Columns): frontend/components/archive/
--     ArchiveWorkspace.tsx. Documents has the helpers of the list. Filters has the filters with the open
--     branches of the tree, (Actions) one Action for each handler, and (Query) the query; `number`
--     is the language's Number and `range` is yearMonthRange. Details has the document and its form. Panel has the
--     effects of one document, and (Requests) its handlers up to their requests and the answers behind
--     them; Panel.Work is the
--     panel over time, where an Event is taken only if what it needs is rendered and enabled. Listing
--     has the rows, the ticks, the bulk actions and (Keys) the keys. Columns has the columns and the
--     saved views, over Archive.Presets.
--   Backups (Progress, Schedule, Files): frontend/components/admin/AdminBackupManager.tsx. Percentages
--     are whole numbers, and `share` is the rounded share of an upload.
--   MindMap (Placement, Labels): frontend/components/mindmap/MindMapWorkspace.tsx. The geometry of the
--     placement is a parameter: the spots, the bounds and the overlap compute with fractions.
--   Dashboard (TaskForm.Submit, TaskList): frontend/components/dashboard/DashboardSummary.tsx. `stamp` reads a
--     local date and time; the answers to the list's requests carry their numbers.
--   Badges: frontend/lib/labels.ts and frontend/components/common/FileTypeBadge.tsx.
--
-- Bounds and fuel: a batch of the gallery reads at most 4 pages, as the code does, so its rounds are
-- structural. Digits of a number n are written with n + 1 rounds, each of which divides by ten.
-- The calendar's last loop has 7 rounds, after which a week must have ended; days that run
-- on or back have a round for each day, more than the months that they cross.
-- The pieces of a label are cut with its length as fuel, which is enough
-- (MindMap.Labels.Lines), and the rings of a placement with their number.
-- Numbers of the code that are counts, indices or sizes are natural numbers.
--
-- Not modelled: rendering, requests and their addresses, the editor (a third-party library), generated
-- API types, and the service itself (Python), whose answers are arguments.
pub mod Prelude
pub mod Text
pub mod Json
pub mod Sorting
pub mod Storage
pub mod Archive
pub mod Rules
pub mod RichContent
pub mod Search
pub mod VirtualList
pub mod MindMap
pub mod Media
pub mod Session
pub mod Review
pub mod Dashboard
pub mod Users
pub mod Comments
pub mod Api
pub mod Badges
pub mod Backups
mod Tests

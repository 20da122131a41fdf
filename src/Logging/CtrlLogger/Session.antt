-- ===== src/Logging/CtrlLogger/Session.antt =====
-- A client's session: its names first, then any use of the logger.
use xm_sigma.Common.{ℕ, ◌<◌, ◌≤◌, ◌≡◌, false}
use xm_sigma.Common.{some}
use xm_sigma.Logging.Rows.{Text}
use xm_sigma.Logging.CtrlLogger.{CtrlLogger, find}

-- Before the header, while names are added.
record Naming (k : ℕ) (s : CtrlLogger) : Type 0 where
  ids : (name : Text) (id : ℕ) → find name s.entry_ids ≡ some id → id < s.item_counter
  count : s.item_counter ≤ k
  before : s.head_added ≡ false

-- ===== src/Repayments/Restarted.antt =====
-- The books after a corrected start date (internal/app/loans.go).
use kopdes.Base.Text.{Text}

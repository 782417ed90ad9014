-- ===== src/Addonscan/Reports.antt =====
-- internal/addonscan/scanner.go: which reports go out.

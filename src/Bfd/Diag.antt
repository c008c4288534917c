-- ===== src/Bfd/Diag.antt =====
-- keepalived/include/bfd.h: the diagnostic codes that the process sets.
use keepalived.Common.{ℕ}

abbrev pub no_diag : ℕ
no_diag = 0

abbrev pub expired : ℕ
expired = 1

abbrev pub nbr_signalled_down : ℕ
nbr_signalled_down = 3

abbrev pub admin_down : ℕ
admin_down = 7

-- BFD_VALID_DIAG is `d <= 8`
abbrev pub last_valid : ℕ
last_valid = 8

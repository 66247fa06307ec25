-- ===== src/Section/OverlapFlag.antt =====
-- Section::OverlapFlags (include/sys/section.h).
use tysos_cxx.Prelude.{ℕ}

abbrev pub less : ℕ
less = 1

abbrev pub more : ℕ
more = 2

abbrev pub equal : ℕ
equal = 4

abbrev pub within : ℕ
within = 8

abbrev pub error : ℕ
error = 16

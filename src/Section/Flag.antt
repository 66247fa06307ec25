-- ===== src/Section/Flag.antt =====
-- The bit numbers of Section::SectionFlags (include/sys/section.h).
use tysos_cxx.Prelude.{ℕ}

abbrev pub defined : ℕ
defined = 0

abbrev pub read : ℕ
read = 1

abbrev pub write : ℕ
write = 2

abbrev pub execute : ℕ
execute = 3

abbrev pub heap : ℕ
heap = 4

abbrev pub auto_expand : ℕ
auto_expand = 6

abbrev pub bits : ℕ
bits = 7

abbrev pub kernel_section : ℕ
kernel_section = 14

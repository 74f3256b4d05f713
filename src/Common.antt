-- ===== src/Common.antt =====
-- src/common.rs: the constants, and the widths of the machine integers.
use buffer_pool.Base.{ℕ, ◌-◌, ◌^◌}

-- `PageId` and `FrameId` are `u32`.
abbrev pub u32_size : ℕ
u32_size = 2 ^ 32

abbrev pub u64_size : ℕ
u64_size = 2 ^ 64

abbrev pub page_size : ℕ
page_size = 8192

abbrev pub db_io_size : ℕ
db_io_size = 16

abbrev pub invalid_page_id : ℕ
invalid_page_id = 2 ^ 32 - 1

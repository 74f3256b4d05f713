-- ===== src/Frame.antt =====
-- src/frame_header.rs: one slot of memory that holds a page.
use buffer_pool.Base.{
  ℕ, ◌+◌, ◌-◌, ◌%◌, ◌≡◌, Bool, false, List, map, length, replicate, length-replicate,
}
use buffer_pool.Common.{page_size, u64_size}

-- `frame_id` is the frame's place in the pool's vector.
pub record FrameHeader : Type 0 where
  pub frame_id : ℕ
  pub pin_count : ℕ
  pub is_dirty : Bool
  pub bytes : List ℕ

-- `vec![0u8; PAGE_SIZE]`.
pub zero_page : List ℕ
zero_page = replicate page_size 0

pub length-zero_page : length zero_page ≡ page_size
unfolding zero_page
length-zero_page = length-replicate {A = ℕ} page_size 0

unfoldable pub new : ℕ → FrameHeader
new frame_id = record { frame_id = frame_id; pin_count = 0; is_dirty = false; bytes = zero_page }

-- `fill(0)` keeps the length.
unfoldable pub reset : FrameHeader → FrameHeader
reset f = record f { bytes = map (λ _. 0) f.bytes; pin_count = 0; is_dirty = false }

-- `fetch_add` and `fetch_sub` on `AtomicUsize` wrap around.
unfoldable pub pin : FrameHeader → FrameHeader
pin f = record f { pin_count = (f.pin_count + 1) % u64_size }

unfoldable pub unpin : FrameHeader → FrameHeader
unpin f = record f { pin_count = (f.pin_count + (u64_size - 1)) % u64_size }

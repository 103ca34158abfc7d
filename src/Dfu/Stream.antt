-- ===== src/Dfu/Stream.antt =====
-- `StreamBuffer` of bm-wire/src/bcmp/dfu_host.rs: the ring of bytes that the application feeds an
-- update's image through.
pub mod Fifo
use bristlemouth_rs.Common.{
  ℕ, zero, suc, ◌+◌, ◌-◌, ◌%◌, Bool, true, false, Option, none, some, List, [], ◌∷◌, ltb, leb, ◌==◌,
  ◌&&◌, if◌then◌else◌, length, get_or, set, replicate, copy_at,
}
use Prim.Native.Nat.{min}

pub record StreamBuffer : Type 0 where
  pub storage : List ℕ
  pub capacity : ℕ
  pub head : ℕ
  pub count : ℕ

-- `StreamBuffer::new`, `none` for a capacity of zero or above `DFU_MAX_CHUNK_SIZE`.
unfoldable pub new_stream : ℕ → Option StreamBuffer
new_stream capacity =
    if leb 1 capacity && leb capacity 1024
    then some (record { storage = replicate 1024 0; capacity = capacity; head = 0; count = 0 })
    else none

-- The loop of `send`, at the index `at` before the remainder.
unfoldable pub write_ring : List ℕ → ℕ → ℕ → List ℕ → List ℕ
write_ring storage capacity at [] = storage
write_ring storage capacity at (byte ∷ bytes) =
    write_ring (set storage (at % capacity) byte) capacity (at + 1) bytes

unfoldable pub send : StreamBuffer → List ℕ → StreamBuffer × Bool
send s bytes = if ltb s.capacity (s.count + length bytes) then (s, false) else (
  record s {
    storage = write_ring s.storage s.capacity (s.head + s.count) bytes;
    count = s.count + length bytes;
  },
  true,
)

-- The bytes that the loop of `receive` reads.
unfoldable pub read_ring : List ℕ → ℕ → ℕ → ℕ → List ℕ
read_ring storage capacity at zero = []
read_ring storage capacity at (suc n) =
    get_or storage (at % capacity) 0 ∷ read_ring storage capacity (at + 1) n

-- `receive` into `buf`, with what `buf` then holds.
unfoldable pub receive : StreamBuffer → List ℕ → StreamBuffer × List ℕ × Option ℕ
receive s buf = if s.count == 0 then (s, buf, none) else (
  record s {
    head = (s.head + min s.count (length buf)) % s.capacity;
    count = s.count - min s.count (length buf);
  },
  copy_at buf 0 (read_ring s.storage s.capacity s.head (min s.count (length buf))),
  some (min s.count (length buf)),
)

-- ===== src/Dfu/Client/Transfer.antt =====
-- The transfer as a refinement: the slot and the page buffer together are the bytes received so far.
pub mod Payload
pub mod Steps
pub mod Validation
pub mod Progress
pub mod Completing
use bristlemouth_rs.Common.{ℕ, ◌+◌, ◌*◌, ◌^◌, ◌<◌, ◌≤◌, ◌≡◌, true, List, [], ◌++◌, length, take}
use bristlemouth_rs.Crc.{crc16_ccitt}
use bristlemouth_rs.Dfu.Message.{DfuMessage}
use bristlemouth_rs.Dfu.Machine.{Effects}
use bristlemouth_rs.Dfu.Client.{Client, img_page_len}

-- What is relied on of the flash, whose slot holds bytes: a write that succeeds stands at its offset
-- behind what the slot held before it, and neither sending a message nor closing the slot changes
-- the bytes.
pub record StoresWrites {F : Type 0} (fx : Effects F) (slot : F → List ℕ) : Type 0 where
  pub written :
      (at : ℕ) (bytes : List ℕ) (f : F)
      → (fx.flash_write at bytes f).1 ≡ true
      → take (at + length bytes) (slot (fx.flash_write at bytes f).0) ≡ take at (slot f) ++ bytes
  pub sent : (m : DfuMessage) (f : F) → slot (fx.send m f) ≡ slot f
  pub closed : (f : F) → slot (fx.flash_close f).0 ≡ slot f

-- The bytes received are those written to the slot and those of the page that is being filled. The
-- count of chunks bounds them, so that the offset does not wrap.
pub record Holds {F : Type 0} (slot : F → List ℕ) (c : Client) (f : F) (bytes : List ℕ)
    : Type 0 where
  pub page : length c.page_buf ≡ img_page_len
  pub room : c.page_byte_counter < img_page_len
  pub stored : take c.flash_offset (slot f) ++ take c.page_byte_counter c.page_buf ≡ bytes
  pub counted : c.flash_offset + c.page_byte_counter ≡ length bytes
  pub crc : c.running_crc16 ≡ crc16_ccitt 0 bytes
  pub bounded : length bytes ≤ 1024 * c.current_chunk
  pub chunks : c.num_chunks < 2 ^ 16
  pub current : c.current_chunk + 1 < 2 ^ 16

-- ===== src/Dfu/Event/Reboot.antt =====
-- `RebootInfo` of dfu_core.rs: what a client leaves in no-init RAM for the image it reboots into.
use bristlemouth_rs.Common.{
  ℕ, ◌^◌, ◌<◌, ◌≤◌, ◌≡◌, refl, List, ◌∷◌, ◌++◌, length, get_or, Result, ok, BmWireError, ◌>>=◌,
  to_le_bytes, from_le_bytes-to_le_bytes, u32_at, u64_at, prefix, prefix-append, fill_prefix,
  fill_prefix_ok,
}

pub record RebootInfo : Type 0 where
  pub magic : ℕ
  pub major : ℕ
  pub minor : ℕ
  pub host_node_id : ℕ
  pub git_sha : ℕ

abbrev pub dfu_reboot_magic : ℕ
dfu_reboot_magic = 0xBADC0FFE

-- `RebootInfo::default()`.
abbrev pub no_reboot_info : RebootInfo
no_reboot_info = record { magic = 0; major = 0; minor = 0; host_node_id = 0; git_sha = 0 }

abbrev pub info_bytes : RebootInfo → List ℕ
info_bytes r =
    to_le_bytes 4 r.magic
    ++ (r.major ∷ r.minor ∷ (to_le_bytes 8 r.host_node_id ++ to_le_bytes 4 r.git_sha))

unfoldable pub encode_reboot : RebootInfo → List ℕ → Result BmWireError (List ℕ)
encode_reboot r buf = fill_prefix buf (info_bytes r)

unfoldable pub decode_reboot : List ℕ → Result BmWireError RebootInfo
decode_reboot buf = do
  b ← prefix 18 buf
  ok (record {
    magic = u32_at b 0;
    major = get_or b 4 0;
    minor = get_or b 5 0;
    host_node_id = u64_at b 6;
    git_sha = u32_at b 14;
  })

length-info_bytes : (r : RebootInfo) → length (info_bytes r) ≡ 18
unfolding to_le_bytes
length-info_bytes r = refl

decode-info_bytes :
    (r : RebootInfo) (rest : List ℕ)
    → r.magic < 256 ^ 4
    → r.host_node_id < 256 ^ 8
    → r.git_sha < 256 ^ 4
    → decode_reboot (info_bytes r ++ rest) ≡ ok r
unfolding decode_reboot u32_at u64_at to_le_bytes
decode-info_bytes r rest hm hn hg = rw (prefix-append 18 (info_bytes r) rest refl) (λ i.
    ok (record {
      magic = from_le_bytes-to_le_bytes 4 r.magic hm i;
      major = r.major;
      minor = r.minor;
      host_node_id = from_le_bytes-to_le_bytes 8 r.host_node_id hn i;
      git_sha = from_le_bytes-to_le_bytes 4 r.git_sha hg i;
    }))

-- In a buffer of 18 bytes or more `encode_reboot` writes what `decode_reboot` reads back, its
-- fields within their widths.
pub decode_reboot-encode_reboot :
    (r : RebootInfo) (buf : List ℕ)
    → r.magic < 256 ^ 4
    → r.host_node_id < 256 ^ 8
    → r.git_sha < 256 ^ 4
    → 18 ≤ length buf
    → (encode_reboot r buf >>= decode_reboot) ≡ ok r
unfolding encode_reboot
decode_reboot-encode_reboot r buf hm hn hg room =
    rw (fill_prefix_ok buf (info_bytes r) (rw (length-info_bytes r) room))
      (decode-info_bytes r _ hm hn hg)

-- ===== src/L2/Checksum.antt =====
-- Adding a port to the checksum of a frame and taking it away again.
use bristlemouth_rs.Common.{
  ℕ, ◌<◌, ◌≤◌, ◌≡◌, ◌≢◌, refl, ◌∙◌, inl, inr, List, arith, ◌==◌, Bool-cases, length, get_or, set,
  All, All-get_or, IsByte, length-set, get_or-set_ne,
}
use bristlemouth_rs.L2.{
  min_stampable_frame, next_header_offset, ports_offset, udp_checksum_offset, is_ipv6, Patch, add,
  subtract, patch_udp, patch_bcmp, patch_checksum,
}
use bristlemouth_rs.L2.Fields.{
  is_ipv6-set, patch_udp-set, patch_udp-undone, patch_bcmp-set, patch_bcmp-undone,
}

next_header-set :
    (f : List ℕ) (i v : ℕ)
    → i ≢ next_header_offset
    → get_or (set f i v) next_header_offset 0 ≡ get_or f next_header_offset 0
next_header-set f i v h = get_or-set_ne f i next_header_offset v 0 h

-- The checksum does not cover the byte that holds the ports.
pub patch_checksum-set :
    (op : Patch) (port b : ℕ) (f : List ℕ)
    → min_stampable_frame ≤ length f
    → set (patch_checksum op port f) ports_offset b ≡ patch_checksum op port (set f ports_offset b)
unfolding patch_checksum
patch_checksum-set op port b f room =
    let v6 = is_ipv6-set f ports_offset b (ground arith) (ground arith) in
    let next = next_header-set f ports_offset b (ground arith) in
    elim (Bool-cases (is_ipv6 f)) [
      | inr other ↦ rw (v6, other) refl
      | inl ipv6 ↦ elim (Bool-cases (get_or f next_header_offset 0 == 17)) [
        | inl udp ↦ rw (v6, next, ipv6, udp) (patch_udp-set op port b f)
        | inr not_udp ↦ elim (Bool-cases (get_or f next_header_offset 0 == 0xBC)) [
          | inl bcmp ↦ rw (v6, next, ipv6, not_udp, bcmp) (patch_bcmp-set op port b f (omega arith))
          | inr none_of_them ↦ rw (v6, next, ipv6, not_udp, none_of_them) refl
        ]
      ]
    ]

patch_udp-is_ipv6 : (op : Patch) (port : ℕ) (f : List ℕ) → is_ipv6 (patch_udp op port f) ≡ is_ipv6 f
unfolding patch_udp
patch_udp-is_ipv6 op port f = is_ipv6-set f udp_checksum_offset _ (ground arith) (ground arith)

patch_udp-next_header :
    (op : Patch) (port : ℕ) (f : List ℕ)
    → get_or (patch_udp op port f) next_header_offset 0 ≡ get_or f next_header_offset 0
unfolding patch_udp
patch_udp-next_header op port f = next_header-set f udp_checksum_offset _ (ground arith)

patch_bcmp-is_ipv6 :
    (op : Patch) (port : ℕ) (f : List ℕ) → is_ipv6 (patch_bcmp op port f) ≡ is_ipv6 f
unfolding patch_bcmp
patch_bcmp-is_ipv6 op port f =
    is_ipv6-set (set f 56 _) 57 _ (ground arith) (ground arith)
    ∙ is_ipv6-set f 56 _ (ground arith) (ground arith)

patch_bcmp-next_header :
    (op : Patch) (port : ℕ) (f : List ℕ)
    → get_or (patch_bcmp op port f) next_header_offset 0 ≡ get_or f next_header_offset 0
unfolding patch_bcmp
patch_bcmp-next_header op port f =
    next_header-set (set f 56 _) 57 _ (ground arith) ∙ next_header-set f 56 _ (ground arith)

length-patch_udp : (op : Patch) (port : ℕ) (f : List ℕ) → length (patch_udp op port f) ≡ length f
unfolding patch_udp
length-patch_udp op port f = length-set f udp_checksum_offset _

length-patch_bcmp : (op : Patch) (port : ℕ) (f : List ℕ) → length (patch_bcmp op port f) ≡ length f
unfolding patch_bcmp
length-patch_bcmp op port f = length-set (set f 56 _) 57 _ ∙ length-set f 56 _

pub length-patch_checksum :
    (op : Patch) (port : ℕ) (f : List ℕ) → length (patch_checksum op port f) ≡ length f
unfolding patch_checksum
length-patch_checksum op port f =
    ground (arith, length-patch_udp op port f, length-patch_bcmp op port f)

pub patch_checksum-undone :
    (port : ℕ) (f : List ℕ)
    → port < 256
    → All IsByte f
    → min_stampable_frame ≤ length f
    → patch_checksum subtract port (patch_checksum add port f) ≡ f
unfolding patch_checksum
patch_checksum-undone port f hp a room = elim (Bool-cases (is_ipv6 f)) [
  | inr other ↦ rw (other, other) refl
  | inl ipv6 ↦ elim (Bool-cases (get_or f next_header_offset 0 == 17)) [
    | inl udp ↦
        rw (ipv6, udp, patch_udp-is_ipv6 add port f, patch_udp-next_header add port f, ipv6, udp)
          (patch_udp-undone port f hp (All-get_or IsByte f udp_checksum_offset 0 (omega arith) a)
            (omega arith))
    | inr not_udp ↦ elim (Bool-cases (get_or f next_header_offset 0 == 0xBC)) [
      | inl bcmp ↦
          rw
            (
              ipv6,
              not_udp,
              bcmp,
              patch_bcmp-is_ipv6 add port f,
              patch_bcmp-next_header add port f,
              ipv6,
              not_udp,
              bcmp,
            )
            (patch_bcmp-undone port f hp a (omega arith))
      | inr none_of_them ↦ rw (ipv6, not_udp, none_of_them, ipv6, not_udp, none_of_them) refl
    ]
  ]
]

-- ===== src/Bcmp/Sealing.antt =====
-- A message sealed with its checksum behind the headers of a node is what the receive path accepts.
mod Twelve
use bristlemouth_rs.Common.{
  ℕ, ◌+◌, ◌/◌, ◌%◌, ◌<◌, ◌≤◌, ◌≡◌, refl, sym, ap, ◌∙◌, true, inl, inr, some, ok, List, [], ◌∷◌,
  ◌++◌, arith, length, set, take, drop, All, All-set, All-append, IsByte, u16_at, length-set,
  length-append, take-append_of, drop-append_of, set-append_past, append_assoc, get_or,
}
use bristlemouth_rs.L2.{is_ipv6}
use bristlemouth_rs.L2.Fields.{u16_at-write_checksum, write_checksum-write_checksum}
use bristlemouth_rs.Checksum.{ipv6_pseudo_checksum, swap_bytes}
use bristlemouth_rs.Addr.{to_be_bytes, nodeid_to_ip, link_local_prefix}
use bristlemouth_rs.Bcmp.{
  bcmp_header_len, checksum_offset, header_of, Received, read_addr, payload_len, bcmp_of,
  clear_source, put_checksum, zero_checksum, checksum_calc, accept,
}
use bristlemouth_rs.Bcmp.Fields.{
  IsBcmpFrame, spec_checksum, without_checksum, message_of, checksum_calc-spec_checksum,
}
use bristlemouth_rs.Bcmp.Receive.{accept_cases}
use bristlemouth_rs.Bcmp.Framing.{framed, said_by}
use bristlemouth_rs.Bcmp.Sealing.Twelve.{sealed_accepted}

from_twelve :
    (P : List ℕ → Type 0)
    → ((m0 m1 m2 m3 m4 m5 m6 m7 m8 m9 m10 m11 : ℕ)
        → P (m0 ∷ m1 ∷ m2 ∷ m3 ∷ m4 ∷ m5 ∷ m6 ∷ m7 ∷ m8 ∷ m9 ∷ m10 ∷ m11 ∷ []))
    → (xs : List ℕ) → length xs ≡ 12
    → P xs
from_twelve P f (m0 ∷ m1 ∷ m2 ∷ m3 ∷ m4 ∷ m5 ∷ m6 ∷ m7 ∷ m8 ∷ m9 ∷ m10 ∷ m11 ∷ []) h =
    f m0 m1 m2 m3 m4 m5 m6 m7 m8 m9 m10 m11
from_twelve P f xs h = absurd (omega arith)

-- The checksum over a message whose field is zero, put into the field.
abbrev pub sealed_with : List ℕ → ℕ → ℕ → List ℕ → List ℕ → List ℕ
sealed_with macs len id dst r =
    put_checksum (framed macs len id dst r) (checksum_calc len (framed macs len id dst r))

abbrev pub with_field : ℕ → List ℕ → List ℕ
with_field c r = set (set r 2 (c % 256)) 3 (c / 256)

abbrev Sealed : ℕ → ℕ → List ℕ → List ℕ → Type 0
Sealed len id dst macs =
    (r : List ℕ)
    → All IsByte macs
    → All IsByte dst
    → All IsByte r
    → length dst ≡ 16
    → 13 ≤ len
    → len ≤ length r
    → len < 65536
    → set (set r 2 0) 3 0 ≡ r
    → accept (sealed_with macs len id dst r) ≡ (
      some (
          ok (
            said_by id dst
              (take len (with_field (checksum_calc len (framed macs len id dst r)) r)))),
      sealed_with macs len id dst r,
    )

pub sealed_framed :
    (macs : List ℕ)
    → length macs ≡ 12
    → (len id : ℕ) (dst r : List ℕ) → All IsByte macs
    → All IsByte dst
    → All IsByte r
    → length dst ≡ 16
    → 13 ≤ len
    → len ≤ length r
    → len < 65536
    → set (set r 2 0) 3 0 ≡ r
    → accept (sealed_with macs len id dst r) ≡ (
      some (
          ok (
            said_by id dst
              (take len (with_field (checksum_calc len (framed macs len id dst r)) r)))),
      sealed_with macs len id dst r,
    )
sealed_framed macs em len id dst r =
    from_twelve (Sealed len id dst)
      (λ m0 m1 m2 m3 m4 m5 m6 m7 m8 m9 m10 m11.
        sealed_accepted m0 m1 m2 m3 m4 m5 m6 m7 m8 m9 m10 m11 len id dst)
      macs em r

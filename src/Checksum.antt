-- ===== src/Checksum.antt =====
-- bm-wire/src/checksum.rs: the checksum of the upper layer over the IPv6 pseudo-header. An address
-- is the list of its 16 bytes.
pub mod Folding
pub mod Rfc2460
use bristlemouth_rs.Common.{
  ℕ, zero, suc, ◌+◌, ◌-◌, ◌*◌, ◌/◌, ◌%◌, ◌^◌, List, [], ◌∷◌, length, ltb, if◌then◌else◌,
}

-- `+=` on a u32, wrapped around as in a release build.
unfoldable pub add32 : ℕ → ℕ → ℕ
add32 sum x = (sum + x) % 2 ^ 32

-- The pairs of `as_chunks::<2>`, each read big-endian and added to `sum`.
unfoldable pub add_pairs : ℕ → List ℕ → ℕ
unfolding add32
add_pairs sum [] = sum
add_pairs sum (last ∷ []) = sum
add_pairs sum (high ∷ low ∷ bytes) = add_pairs (add32 sum (high * 256 + low)) bytes

-- What `as_chunks::<2>` leaves over.
unfoldable pub remainder : List ℕ → List ℕ
remainder [] = []
remainder (last ∷ []) = last ∷ []
remainder (high ∷ low ∷ bytes) = remainder bytes

unfoldable pub add_remainder : ℕ → List ℕ → ℕ
unfolding add32
add_remainder sum [] = sum
add_remainder sum (last ∷ []) = add32 sum (last * 256)
add_remainder sum (high ∷ low ∷ bytes) = sum

-- The rounds that the `while` loop may take.
abbrev pub fold_rounds : ℕ
fold_rounds = 3

unfoldable pub fold_carries : ℕ → ℕ → ℕ
fold_carries zero sum = sum
fold_carries (suc rounds) sum =
    let rest = fold_carries rounds (sum % 65536 + sum / 65536) in
    if ltb 0 (sum / 65536) then rest else sum

-- `swap_bytes` of a u16.
unfoldable pub swap_bytes : ℕ → ℕ
swap_bytes x = x % 256 * 256 + x / 256

-- The sum over the addresses, the length and the next header.
unfoldable pub header_sum : List ℕ → List ℕ → ℕ → ℕ → ℕ
unfolding add32 add_pairs
header_sum src dst len next_header =
    let addresses = add_pairs (add_pairs 0 src) dst in
    add32 (add32 (add32 addresses (len / 65536 % 65536)) (len % 65536)) next_header

-- The sum before the carries are folded.
unfoldable pub pseudo_sum : List ℕ → List ℕ → ℕ → List ℕ → ℕ
unfolding header_sum add_pairs remainder add_remainder
pseudo_sum src dst next_header payload =
    let header = header_sum src dst (length payload % 2 ^ 32) next_header in
    add_remainder (add_pairs header payload) (remainder payload)

unfoldable pub ipv6_pseudo_checksum : List ℕ → List ℕ → ℕ → List ℕ → ℕ
unfolding pseudo_sum fold_carries swap_bytes
ipv6_pseudo_checksum src dst next_header payload =
    swap_bytes (65535 - fold_carries fold_rounds (pseudo_sum src dst next_header payload) % 65536)

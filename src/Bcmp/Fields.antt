-- ===== src/Bcmp/Fields.antt =====
-- The fields of a received frame that `accept` clears, and those that it leaves.
use bristlemouth_rs.Common.{
  ℕ, zero, suc, ◌+◌, ◌-◌, ◌/◌, ◌%◌, ◌^◌, ◌<◌, ◌≤◌, ◌≡◌, refl, ap, ◌∙◌, true, List, [], ◌∷◌, arith,
  length, get_or, set, take, drop, All, All-set, IsByte, u16_at, length-set, length-take,
  length-drop,
}
use bristlemouth_rs.L2.{next_header_offset, ports_offset, is_ipv6}
use bristlemouth_rs.L2.Fields.{write_checksum-write_checksum, write_checksum_same}
use bristlemouth_rs.Checksum.{swap_bytes}
use bristlemouth_rs.Checksum.Rfc2460.{
  pseudo_packet, ones_complement_sum, ipv6_pseudo_checksum-pseudo_packet,
}
use bristlemouth_rs.Bcmp.{
  bcmp_header_len, bcmp_header_offset, checksum_offset, header_of, Received, read_addr, payload_len,
  bcmp_of, clear_source, put_checksum, zero_checksum, checksum_calc,
}

module _ {ℓ} {A : Type ℓ} where
  drop-set : (o i : ℕ) (xs : List A) (v : A) → i < o → drop o (set xs i v) ≡ drop o xs
  drop-set zero i xs v h = absurd (omega arith)
  drop-set (suc o) i [] v h = refl
  drop-set (suc o) zero (x ∷ xs) v h = refl
  drop-set (suc o) (suc i) (x ∷ xs) v h = drop-set o i xs v (omega arith)

  take-set : (n i : ℕ) (xs : List A) (v : A) → n ≤ i → take n (set xs i v) ≡ take n xs
  take-set zero i xs v h = refl
  take-set (suc n) i [] v h = refl
  take-set (suc n) zero (x ∷ xs) v h = absurd (omega arith)
  take-set (suc n) (suc i) (x ∷ xs) v h = ap (◌∷◌ x) (take-set n i xs v (omega arith))

  slice-set :
      (o n i : ℕ) (xs : List A) (v : A)
      → o + n ≤ i
      → take n (drop o (set xs i v)) ≡ take n (drop o xs)
  slice-set zero n i xs v h = take-set n i xs v (omega arith)
  slice-set (suc o) n i [] v h = refl
  slice-set (suc o) n zero (x ∷ xs) v h = absurd (omega arith)
  slice-set (suc o) n (suc i) (x ∷ xs) v h = slice-set o n i xs v (omega arith)

pub All-take_of : (n : ℕ) (xs : List ℕ) → All IsByte xs → All IsByte (take n xs)
All-take_of zero xs a = tt
All-take_of (suc n) [] a = tt
All-take_of (suc n) (x ∷ xs) a = (a.0, All-take_of n xs a.1)

pub All-drop_of : (n : ℕ) (xs : List ℕ) → All IsByte xs → All IsByte (drop n xs)
All-drop_of zero xs a = a
All-drop_of (suc n) [] a = tt
All-drop_of (suc n) (x ∷ xs) a = All-drop_of n xs a.1

-- A whole BCMP message in an IPv6 frame.
unfoldable pub IsBcmpFrame : List ℕ → Type 0
IsBcmpFrame frame =
    (is_ipv6 frame ≡ true)
    × (get_or frame next_header_offset 0 ≡ 0xBC)
    × (bcmp_header_len ≤ payload_len frame)
    × (bcmp_header_offset + payload_len frame ≤ length frame)

-- The checksum that the RFC gives the first `len` bytes of the message.
unfoldable pub spec_checksum : ℕ → List ℕ → ℕ
spec_checksum len frame = swap_bytes (
    65535
    - ones_complement_sum
        (pseudo_packet (read_addr frame 22) (read_addr frame 38) 0xBC (bcmp_of len frame)))

unfoldable pub without_checksum : List ℕ → List ℕ
without_checksum frame = zero_checksum (clear_source frame)

-- What the frame says.
unfoldable pub message_of : List ℕ → Received
message_of frame = record {
  header = header_of (take bcmp_header_len (bcmp_of (payload_len frame) frame));
  body = drop bcmp_header_len (bcmp_of (payload_len frame) frame);
  src = read_addr (clear_source frame) 22;
  dst = read_addr frame 38;
  ingress_port = get_or frame ports_offset 0 / 16 % 16;
}

pub length-clear_source : (f : List ℕ) → length (clear_source f) ≡ length f
unfolding clear_source
length-clear_source f =
    length-set (set (set f 26 0) 27 0) 24 (get_or (set (set f 26 0) 27 0) ports_offset 0 % 16)
    ∙ length-set (set f 26 0) 27 0
    ∙ length-set f 26 0

pub bcmp_of-clear_source : (len : ℕ) (f : List ℕ) → bcmp_of len (clear_source f) ≡ bcmp_of len f
unfolding bcmp_of clear_source
bcmp_of-clear_source len f = ap (take len) (
    drop-set 54 24 (set (set f 26 0) 27 0) _ (omega arith)
    ∙ drop-set 54 27 (set f 26 0) 0 (omega arith)
    ∙ drop-set 54 26 f 0 (omega arith))

pub dst-without_checksum : (f : List ℕ) → read_addr (without_checksum f) 38 ≡ read_addr f 38
unfolding read_addr without_checksum zero_checksum clear_source
dst-without_checksum f =
    slice-set 38 16 57 (set (clear_source f) 56 0) 0 (omega arith)
    ∙ slice-set 38 16 56 (clear_source f) 0 (omega arith)
    ∙ ap (take 16) (
        drop-set 38 24 (set (set f 26 0) 27 0) (get_or (set (set f 26 0) 27 0) 24 0 % 16)
          (omega arith)
        ∙ drop-set 38 27 (set f 26 0) 0 (omega arith)
        ∙ drop-set 38 26 f 0 (omega arith))

pub src-without_checksum :
    (f : List ℕ) → read_addr (without_checksum f) 22 ≡ read_addr (clear_source f) 22
unfolding read_addr without_checksum zero_checksum
src-without_checksum f =
    slice-set 22 16 57 (set (clear_source f) 56 0) 0 (omega arith)
    ∙ slice-set 22 16 56 (clear_source f) 0 (omega arith)

pub clear_source-bytes : (f : List ℕ) → All IsByte f → 54 ≤ length f → All IsByte (clear_source f)
unfolding clear_source
clear_source-bytes f a room =
    All-set IsByte (set (set f 26 0) 27 0) 24 _ (omega arith)
      (All-set IsByte (set f 26 0) 27 0 (omega arith) (All-set IsByte f 26 0 (omega arith) a))

pub without_checksum-bytes :
    (f : List ℕ) → All IsByte f → 54 ≤ length f → All IsByte (without_checksum f)
unfolding without_checksum zero_checksum
without_checksum-bytes f a room =
    All-set IsByte (set (clear_source f) 56 0) 57 0 (omega arith)
      (All-set IsByte (clear_source f) 56 0 (omega arith) (clear_source-bytes f a room))

-- Writing back the checksum that was read.
pub restored :
    (f : List ℕ)
    → All IsByte f
    → 67 ≤ length f
    → put_checksum (without_checksum f) (u16_at (clear_source f) checksum_offset) ≡ clear_source f
unfolding put_checksum without_checksum zero_checksum
restored f a room =
    write_checksum-write_checksum (clear_source f) 0 (u16_at (clear_source f) checksum_offset)
    ∙ write_checksum_same (clear_source f) (clear_source-bytes f a (omega arith))
        (omega (arith, length-clear_source f))

pub length-without_checksum : (f : List ℕ) → length (without_checksum f) ≡ length f
unfolding without_checksum zero_checksum
length-without_checksum f =
    length-set (set (clear_source f) 56 0) 57 0
    ∙ length-set (clear_source f) 56 0
    ∙ length-clear_source f

pub slice_of : (f : List ℕ) (o n : ℕ) → o + n ≤ length f → length (take n (drop o f)) ≡ n
slice_of f o n h = omega (arith, length-take n (drop o f), length-drop o f)

pub checksum_calc-spec_checksum :
    (len : ℕ) (f : List ℕ)
    → All IsByte f
    → 54 + len ≤ length f
    → len < 2 ^ 16
    → checksum_calc len f ≡ spec_checksum len f
unfolding checksum_calc spec_checksum bcmp_of read_addr
checksum_calc-spec_checksum len f a fits small =
    ipv6_pseudo_checksum-pseudo_packet (read_addr f 22) (read_addr f 38) 0xBC (bcmp_of len f)
      (All-take_of 16 (drop 22 f) (All-drop_of 22 f a))
      (All-take_of 16 (drop 38 f) (All-drop_of 38 f a))
      (All-take_of len (drop 54 f) (All-drop_of 54 f a)) (slice_of f 22 16 (omega arith))
      (slice_of f 38 16 (omega arith)) (omega (arith, slice_of f 54 len fits)) (omega arith)

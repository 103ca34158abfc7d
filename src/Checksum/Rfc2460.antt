-- ===== src/Checksum/Rfc2460.antt =====
-- `ipv6_pseudo_checksum` against RFC 2460: the complement of the one's complement sum of the
-- sixteen-bit words of the pseudo-header and the payload, padded at its end.
use bristlemouth_rs.Common.{
  ℕ, zero, suc, ◌+◌, ◌-◌, ◌*◌, ◌/◌, ◌%◌, ◌^◌, ◌<◌, ◌≤◌, ◌≡◌, refl, sym, ap, ◌∙◌, List, [], ◌∷◌,
  ◌++◌, length, arith, All, IsByte,
}
use bristlemouth_rs.Checksum.{
  add32, add_pairs, remainder, add_remainder, fold_rounds, fold_carries, swap_bytes, header_sum,
  pseudo_sum, ipv6_pseudo_checksum,
}
use bristlemouth_rs.Checksum.Folding.{
  normal, normal_small, normal-below, fold_carries-normal, ones_add, ones_add-normal,
}

-- The header's fields as the RFC lays them out, and the payload.
unfoldable pub pseudo_packet : List ℕ → List ℕ → ℕ → List ℕ → List ℕ
pseudo_packet src dst next_header payload =
    let n = length payload in
    src
    ++ (dst
        ++ (n / 2 ^ 24 % 256
            ∷ n / 2 ^ 16 % 256
            ∷ n / 256 % 256
            ∷ n % 256
            ∷ 0
            ∷ 0
            ∷ 0
            ∷ next_header
            ∷ payload))

unfoldable pub ones_complement_sum : List ℕ → ℕ
unfolding ones_add
ones_complement_sum [] = 0
ones_complement_sum (last ∷ []) = last * 256
ones_complement_sum (high ∷ low ∷ bytes) = ones_add (high * 256 + low) (ones_complement_sum bytes)

-- The sum as a number of any size.
unfoldable pub word_sum : List ℕ → ℕ
word_sum [] = 0
word_sum (last ∷ []) = last * 256
word_sum (high ∷ low ∷ bytes) = high * 256 + low + word_sum bytes

ones_complement_sum-normal :
    (bytes : List ℕ) → All IsByte bytes → ones_complement_sum bytes ≡ normal (word_sum bytes)
unfolding ones_complement_sum word_sum normal
ones_complement_sum-normal [] h = refl
ones_complement_sum-normal (last ∷ []) h = normal_small (last * 256) (omega (arith, h.0))
ones_complement_sum-normal (high ∷ low ∷ bytes) h =
    ap (ones_add (high * 256 + low)) (ones_complement_sum-normal bytes h.1.1)
    ∙ ones_add-normal (high * 256 + low) (word_sum bytes) (omega (arith, h.0, h.1.0))

word_sum-below :
    (bytes : List ℕ) → All IsByte bytes → word_sum bytes ≤ 65535 * (length bytes / 2 + 1)
unfolding word_sum
word_sum-below [] h = omega arith
word_sum-below (last ∷ []) h = omega (arith, h.0)
word_sum-below (high ∷ low ∷ bytes) h = omega (arith, h.0, h.1.0, word_sum-below bytes h.1.1)

word_sum-append :
    (n : ℕ) (xs ys : List ℕ) → length xs ≡ 2 * n → word_sum (xs ++ ys) ≡ word_sum xs + word_sum ys
unfolding word_sum
word_sum-append n [] ys h = omega arith
word_sum-append n (x ∷ []) ys h = absurd (omega arith)
word_sum-append zero (x ∷ y ∷ xs) ys h = absurd (omega arith)
word_sum-append (suc n) (x ∷ y ∷ xs) ys h = omega (arith, word_sum-append n xs ys (omega arith))

-- Of whole words there is no remainder, and without an overflow the sum is that of the words.
add_pairs-even :
    (n sum : ℕ) (bytes : List ℕ)
    → length bytes ≡ 2 * n
    → sum + word_sum bytes < 2 ^ 32
    → add_pairs sum bytes ≡ sum + word_sum bytes
unfolding add_pairs add32 word_sum
add_pairs-even n sum [] e h = omega arith
add_pairs-even n sum (x ∷ []) e h = absurd (omega arith)
add_pairs-even zero sum (x ∷ y ∷ xs) e h = absurd (omega arith)
add_pairs-even (suc n) sum (x ∷ y ∷ xs) e h =
    let step : (sum + (x * 256 + y)) % 2 ^ 32 ≡ sum + (x * 256 + y) = omega arith in
    ap (λ s. add_pairs s xs) step
    ∙ add_pairs-even n (sum + (x * 256 + y)) xs (omega arith) (omega arith)
    ∙ omega arith

add_payload :
    (sum : ℕ) (bytes : List ℕ)
    → sum + word_sum bytes < 2 ^ 32
    → add_remainder (add_pairs sum bytes) (remainder bytes) ≡ sum + word_sum bytes
unfolding add_pairs add_remainder remainder add32 word_sum
add_payload sum [] h = omega arith
add_payload sum (x ∷ []) h = omega arith
add_payload sum (x ∷ y ∷ xs) h =
    let step : (sum + (x * 256 + y)) % 2 ^ 32 ≡ sum + (x * 256 + y) = omega arith in
    ap (λ s. add_remainder (add_pairs s xs) (remainder xs)) step
    ∙ add_payload (sum + (x * 256 + y)) xs (omega arith)
    ∙ omega arith

abbrev header_words : ℕ → ℕ → ℕ
header_words n next_header = n / 65536 % 65536 + n % 65536 + next_header

word_sum-pseudo_packet :
    (src dst : List ℕ) (next_header : ℕ) (payload : List ℕ)
    → length src ≡ 16
    → length dst ≡ 16
    → length payload < 2 ^ 16
    → word_sum (pseudo_packet src dst next_header payload)
      ≡ word_sum src + word_sum dst + header_words (length payload) next_header + word_sum payload
unfolding pseudo_packet word_sum
word_sum-pseudo_packet src dst next_header payload hs hd hp =
    omega (arith, word_sum-append 8 src _ hs, word_sum-append 8 dst _ hd)

pseudo_sum-word_sum :
    (src dst : List ℕ) (next_header : ℕ) (payload : List ℕ)
    → length src ≡ 16
    → length dst ≡ 16
    → length payload < 2 ^ 16
    → word_sum src + word_sum dst + header_words (length payload) next_header + word_sum payload
      < 2 ^ 32
    → pseudo_sum src dst next_header payload
      ≡ word_sum src + word_sum dst + header_words (length payload) next_header + word_sum payload
unfolding pseudo_sum header_sum add32
pseudo_sum-word_sum src dst next_header payload hs hd hp h =
    let first : add_pairs 0 src ≡ word_sum src =
      omega (arith, add_pairs-even 8 0 src hs (omega arith)) in
    let addresses : add_pairs (add_pairs 0 src) dst ≡ word_sum src + word_sum dst =
      ap (λ s. add_pairs s dst) first ∙ add_pairs-even 8 (word_sum src) dst hd (omega arith) in
    let header : header_sum src dst (length payload % 2 ^ 32) next_header
        ≡ word_sum src + word_sum dst + header_words (length payload) next_header =
      omega (arith, addresses) in
    ap (λ s. add_remainder (add_pairs s payload) (remainder payload)) header
    ∙ add_payload _ payload h

All-append : (xs ys : List ℕ) → All IsByte xs → All IsByte ys → All IsByte (xs ++ ys)
All-append [] ys hx hy = hy
All-append (x ∷ xs) ys hx hy = (hx.0, All-append xs ys hx.1 hy)

pseudo_packet-bytes :
    (src dst : List ℕ) (next_header : ℕ) (payload : List ℕ)
    → All IsByte src
    → All IsByte dst
    → next_header < 256
    → All IsByte payload
    → All IsByte (pseudo_packet src dst next_header payload)
unfolding pseudo_packet
pseudo_packet-bytes src dst next_header payload hs hd hn hp =
    let b : (x : ℕ) → x % 256 < 256 = λ x. omega arith in
    let z : 0 < 256 = omega arith in
    All-append src _ hs (All-append dst _ hd (b _, (b _, (b _, (b _, (z, (z, (z, (hn, hp)))))))))

-- On addresses of 16 bytes and a payload shorter than 65536 bytes, `ipv6_pseudo_checksum` is, with
-- its two bytes swapped, the complement of the one's complement sum over the pseudo-packet of the
-- RFC; the u32 that the code adds into does not overflow.
pub ipv6_pseudo_checksum-pseudo_packet :
    (src dst : List ℕ) (next_header : ℕ) (payload : List ℕ)
    → All IsByte src
    → All IsByte dst
    → All IsByte payload
    → length src ≡ 16
    → length dst ≡ 16
    → length payload < 2 ^ 16
    → next_header < 256
    → ipv6_pseudo_checksum src dst next_header payload
      ≡ swap_bytes (65535 - ones_complement_sum (pseudo_packet src dst next_header payload))
unfolding ipv6_pseudo_checksum
ipv6_pseudo_checksum-pseudo_packet src dst next_header payload bs bd bp hs hd hp hn =
    let total : pseudo_sum src dst next_header payload ≡ word_sum packet =
      pseudo_sum-word_sum src dst next_header payload hs hd hp small
      ∙ sym (word_sum-pseudo_packet src dst next_header payload hs hd hp) in
    let folded : fold_carries fold_rounds (pseudo_sum src dst next_header payload)
        ≡ ones_complement_sum packet =
      ap (fold_carries fold_rounds) total
      ∙ fold_carries-normal (word_sum packet)
          (omega (arith, small, word_sum-pseudo_packet src dst next_header payload hs hd hp))
      ∙ sym (
          ones_complement_sum-normal packet
            (pseudo_packet-bytes src dst next_header payload bs bd hn bp)) in
    let low : ones_complement_sum packet % 65536 ≡ ones_complement_sum packet = omega (
      arith,
      ones_complement_sum-normal packet
          (pseudo_packet-bytes src dst next_header payload bs bd hn bp),
      normal-below (word_sum packet),
    ) in
    ap (λ s. swap_bytes (65535 - s % 65536)) folded ∙ ap (λ s. swap_bytes (65535 - s)) low
  where
    packet : List ℕ
    packet = pseudo_packet src dst next_header payload

    small :
        word_sum src + word_sum dst + header_words (length payload) next_header + word_sum payload
        < 2 ^ 32
    small = omega (arith, word_sum-below src bs, word_sum-below dst bd, word_sum-below payload bp)

-- ===== src/Bcmp/Receive.antt =====
-- What `accept` makes of a frame, against the checksum of RFC 2460.
use bristlemouth_rs.Common.{
  ℕ, ◌+◌, ◌/◌, ◌%◌, ◌^◌, ◌<◌, ◌≤◌, ◌≡◌, ◌≢◌, ◌⊎◌, refl, sym, ap, ◌∙◌, inl, inr, some, err, ok, true,
  false, Bool-cases, List, ltb, ◌==◌, ==_iff, arith, length, get_or, take, All, All-get_or, IsByte,
  u16_at, prefix, le→ltb,
}
use bristlemouth_rs.L2.{min_frame_with_addresses, next_header_offset, ports_offset, is_ipv6}
use bristlemouth_rs.Bcmp.{
  bcmp_header_len, checksum_offset, header_of, decode, RxError, too_short, not_ipv6, not_bcmp,
  bad_checksum, hand_over, read_addr, payload_len, bcmp_of, clear_source, checksum_calc, verify,
  process_received, accept,
}
use bristlemouth_rs.Bcmp.Fields.{
  IsBcmpFrame, spec_checksum, without_checksum, message_of, bcmp_of-clear_source,
  dst-without_checksum, src-without_checksum, without_checksum-bytes, restored,
  length-without_checksum, slice_of, checksum_calc-spec_checksum,
}

-- A message of at least a header is decoded.
decode-long : (bs : List ℕ) → 13 ≤ length bs → decode bs ≡ ok (header_of (take bcmp_header_len bs))
unfolding decode prefix
decode-long bs h = rw (le→ltb (length bs) 13 h) refl

-- The message of the frame with its source cleared.
hand_over-message_of :
    (f : List ℕ)
    → IsBcmpFrame f
    → hand_over
        (decode (bcmp_of (payload_len f) (clear_source f)))
        (bcmp_of (payload_len f) (clear_source f))
        (read_addr (without_checksum f) 22)
        (read_addr (without_checksum f) 38)
        (get_or f ports_offset 0 / 16 % 16)
      ≡ some (ok (message_of f))
unfolding message_of IsBcmpFrame bcmp_of
hand_over-message_of f w =
    rw
      (
        bcmp_of-clear_source (payload_len f) f,
        dst-without_checksum f,
        src-without_checksum f,
        decode-long (bcmp_of (payload_len f) f)
            (omega (arith, w.2, slice_of f 54 (payload_len f) w.3)),
      )
      refl

payload_len-below : (f : List ℕ) → All IsByte f → 54 ≤ length f → payload_len f < 2 ^ 16
unfolding payload_len
payload_len-below f a h =
    omega
      (arith, All-get_or IsByte f 18 0 (omega arith) a, All-get_or IsByte f 19 0 (omega arith) a)

process_received_cases :
    (f : List ℕ)
    → All IsByte f
    → IsBcmpFrame f
    → ((u16_at (clear_source f) checksum_offset
          ≢ spec_checksum (payload_len f) (without_checksum f))
        × (process_received (payload_len f) f ≡ (some (err bad_checksum), without_checksum f)))
      ⊎ ((u16_at (clear_source f) checksum_offset
            ≡ spec_checksum (payload_len f) (without_checksum f))
          × (process_received (payload_len f) f ≡ (some (ok (message_of f)), clear_source f)))
unfolding process_received verify IsBcmpFrame without_checksum
process_received_cases f a w =
    let room : 67 ≤ length f = omega (arith, w.2, w.3) in
    let calc =
      checksum_calc-spec_checksum (payload_len f) (without_checksum f)
        (without_checksum-bytes f a (omega arith)) (omega (arith, w.3, length-without_checksum f))
        (payload_len-below f a (omega arith)) in
    elim (Bool-cases (
      checksum_calc (payload_len f) (without_checksum f)
      == u16_at (clear_source f) checksum_offset)) [
        | inl same ↦ inr (
          sym ((==_iff _ _).0 same) ∙ calc,
          rw (same, restored f a room) (ap (λ r. (r, clear_source f)) (hand_over-message_of f w)),
        )
        | inr differs ↦ inl ((λ e. let t = (==_iff _ _).1 (calc ∙ sym e) in cc), rw differs refl)
      ]

whole :
    (f : List ℕ)
    → is_ipv6 f ≡ true
    → get_or f next_header_offset 0 ≡ 0xBC
    → 13 ≤ payload_len f
    → 54 + payload_len f ≤ length f
    → IsBcmpFrame f
unfolding IsBcmpFrame
whole f p q r s = (p, q, r, s)

whole_long : (f : List ℕ) → IsBcmpFrame f → ¬ (length f < 54)
unfolding IsBcmpFrame
whole_long f w h = absurd (omega (arith, w.3))

whole_ipv6 : (f : List ℕ) → IsBcmpFrame f → is_ipv6 f ≢ false
unfolding IsBcmpFrame
whole_ipv6 f w h = let e = w.0 in cc

whole_fits : (f : List ℕ) → IsBcmpFrame f → ¬ (length f < payload_len f + 54)
unfolding IsBcmpFrame
whole_fits f w h = absurd (omega (arith, w.3))

whole_bcmp : (f : List ℕ) → IsBcmpFrame f → get_or f next_header_offset 0 ≢ 0xBC → ⊥
unfolding IsBcmpFrame
whole_bcmp f w h = h w.1

whole_header : (f : List ℕ) → IsBcmpFrame f → ¬ (payload_len f < 13)
unfolding IsBcmpFrame
whole_header f w h = absurd (omega (arith, w.2))

-- On a frame of bytes `accept` does not panic. A frame that is no whole BCMP message is refused, for
-- another reason than its checksum, and left as it was. Of a message, the checksum is compared with
-- the one that RFC 2460 gives it with the source cleared and the checksum zeroed: where they
-- differ, it is refused and that is how the frame is left; where they agree, it is accepted with what
-- the frame says, and of the frame only the source is cleared.
pub accept_cases :
    (frame : List ℕ)
    → All IsByte frame
    → ((e : RxError) × (e ≢ bad_checksum)
        × ¬ IsBcmpFrame frame
        × (accept frame ≡ (some (err e), frame)))
      ⊎ (IsBcmpFrame frame
          × (u16_at (clear_source frame) checksum_offset
              ≢ spec_checksum (payload_len frame) (without_checksum frame))
          × (accept frame ≡ (some (err bad_checksum), without_checksum frame)))
      ⊎ (IsBcmpFrame frame
          × (u16_at (clear_source frame) checksum_offset
              ≡ spec_checksum (payload_len frame) (without_checksum frame))
          × (accept frame ≡ (some (ok (message_of frame)), clear_source frame)))
unfolding accept
accept_cases frame a = elim (Bool-cases (ltb (length frame) min_frame_with_addresses)) [
  | inl short ↦ inl (too_short, (λ p. cc), (λ w. whole_long frame w (ground arith)), rw short refl)
  | inr long ↦ elim (Bool-cases (is_ipv6 frame)) [
    | inr other ↦ inl (not_ipv6, (λ p. cc), (λ w. whole_ipv6 frame w other), rw (long, other) refl)
    | inl v6 ↦
        elim (Bool-cases (ltb (length frame) (payload_len frame + min_frame_with_addresses))) [
          | inl cut ↦ inl (
            too_short,
            (λ p. cc),
            (λ w. whole_fits frame w (ground arith)),
            rw (long, v6, cut) refl,
          )
          | inr fits ↦ elim (Bool-cases (get_or frame next_header_offset 0 == 0xBC)) [
            | inr other ↦ inl (
              not_bcmp,
              (λ p. cc),
              (λ w. whole_bcmp frame w (ground arith)),
              rw (long, v6, fits, other) refl,
            )
            | inl bcmp ↦ elim (Bool-cases (ltb (payload_len frame) bcmp_header_len)) [
              | inl small ↦ inl (
                too_short,
                (λ p. cc),
                (λ w. whole_header frame w (ground arith)),
                rw (long, v6, fits, bcmp, small) refl,
              )
              | inr room ↦
                  let w = whole frame v6 (ground arith) (ground arith) (ground arith) in
                  let e : accept frame ≡ process_received (payload_len frame) frame =
                    rw (long, v6, fits, bcmp, room) refl in
                  elim (process_received_cases frame a w) [
                    | inl bad ↦ inr (inl (w, bad.0, e ∙ bad.1))
                    | inr good ↦ inr (inr (w, good.0, e ∙ good.1))
                  ]
            ]
          ]
        ]
  ]
]

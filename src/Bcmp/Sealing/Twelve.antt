-- ===== src/Bcmp/Sealing/Twelve.antt =====
-- The receive path on a sealed frame whose two MACs are given byte by byte.
use bristlemouth_rs.Common.{
  ℕ, ◌+◌, ◌/◌, ◌%◌, ◌<◌, ◌≤◌, ◌≡◌, refl, sym, ap, ◌∙◌, true, inl, inr, some, ok, List, [], ◌∷◌,
  arith, length, set, take, All, All-append, IsByte, u16_at, length-append, take-append_of,
  drop-append_of, set-append_past, get_or,
}
use bristlemouth_rs.L2.{is_ipv6}
use bristlemouth_rs.L2.Fields.{u16_at-write_checksum, write_checksum-write_checksum}
use bristlemouth_rs.Addr.{nodeid_to_ip, link_local_prefix}
use bristlemouth_rs.Bcmp.{
  checksum_offset, read_addr, payload_len, bcmp_of, clear_source, put_checksum, zero_checksum,
  checksum_calc, accept,
}
use bristlemouth_rs.Bcmp.Fields.{
  IsBcmpFrame, spec_checksum, without_checksum, message_of, checksum_calc-spec_checksum,
}
use bristlemouth_rs.Bcmp.Receive.{accept_cases}
use bristlemouth_rs.Bcmp.Framing.{checksum_calc-below, framed, said_by, length-put, put-bytes}

module _ (m0 m1 m2 m3 m4 m5 m6 m7 m8 m9 m10 m11 : ℕ) (len id : ℕ) (dst : List ℕ) where
  abbrev pub macs : List ℕ
  macs = m0 ∷ m1 ∷ m2 ∷ m3 ∷ m4 ∷ m5 ∷ m6 ∷ m7 ∷ m8 ∷ m9 ∷ m10 ∷ m11 ∷ []

  abbrev pub frame : List ℕ → List ℕ
  frame = framed macs len id dst

  frame-clear_source : (r : List ℕ) → clear_source (frame r) ≡ frame r
  unfolding clear_source framed
  frame-clear_source r = refl

  put-clear_source :
      (r : List ℕ) (c : ℕ) → clear_source (put_checksum (frame r) c) ≡ put_checksum (frame r) c
  unfolding clear_source put_checksum framed
  put-clear_source r c = refl

  put-is_ipv6 : (r : List ℕ) (c : ℕ) → is_ipv6 (put_checksum (frame r) c) ≡ true
  unfolding is_ipv6 put_checksum framed
  put-is_ipv6 r c = ground arith

  put-payload_len :
      (r : List ℕ) (c : ℕ) → len < 65536 → payload_len (put_checksum (frame r) c) ≡ len
  unfolding payload_len put_checksum framed
  put-payload_len r c h = omega arith

  put-next_header : (r : List ℕ) (c : ℕ) → get_or (put_checksum (frame r) c) 20 0 ≡ 0xBC
  unfolding framed put_checksum
  put-next_header r c = refl

  length-frame : (r : List ℕ) → length dst ≡ 16 → length (frame r) ≡ 54 + length r
  unfolding framed
  length-frame r e = omega (arith, length-append dst r)

  put-frame :
      (r : List ℕ) (c : ℕ)
      → length dst ≡ 16
      → put_checksum (frame r) c ≡ frame (set (set r 2 (c % 256)) 3 (c / 256))
  unfolding put_checksum framed
  put-frame r c e =
      ap (λ t. framed macs len id [] (set t 19 (c / 256))) (set-append_past dst r 16 2 (c % 256) e)
      ∙ ap (framed macs len id []) (set-append_past dst (set r 2 (c % 256)) 16 3 (c / 256) e)

  frame-bcmp_of : (n : ℕ) (r : List ℕ) → length dst ≡ 16 → bcmp_of n (frame r) ≡ take n r
  unfolding bcmp_of framed
  frame-bcmp_of n r e = ap (take n) (drop-append_of dst r 16 e)

  frame-dst : (r : List ℕ) → length dst ≡ 16 → read_addr (frame r) 38 ≡ dst
  unfolding read_addr framed
  frame-dst r e = take-append_of dst r 16 e

  frame-src : (r : List ℕ) → read_addr (frame r) 22 ≡ nodeid_to_ip link_local_prefix id
  unfolding read_addr framed
  frame-src r = refl

  frame-port : (r : List ℕ) → get_or (frame r) 24 0 ≡ 0
  unfolding framed
  frame-port r = refl

  frame-bytes :
      (r : List ℕ) → All IsByte macs → All IsByte dst → All IsByte r → All IsByte (frame r)
  unfolding framed
  frame-bytes r am ad ar = (
    am.0,
    (
      am.1.0,
      (
        am.1.1.0,
        (
          am.1.1.1.0,
          (
            am.1.1.1.1.0,
            (
              am.1.1.1.1.1.0,
              (
                am.1.1.1.1.1.1.0,
                (
                  am.1.1.1.1.1.1.1.0,
                  (
                    am.1.1.1.1.1.1.1.1.0,
                    (
                      am.1.1.1.1.1.1.1.1.1.0,
                      (
                        am.1.1.1.1.1.1.1.1.1.1.0,
                        (
                          am.1.1.1.1.1.1.1.1.1.1.1.0,
                          (
                            omega arith,
                            (
                              omega arith,
                              (
                                omega arith,
                                (
                                  omega arith,
                                  (
                                    omega arith,
                                    (
                                      omega arith,
                                      (
                                        omega arith,
                                        (
                                          omega arith,
                                          (
                                            omega arith,
                                            (
                                              omega arith,
                                              (
                                                omega arith,
                                                (
                                                  omega arith,
                                                  (
                                                    omega arith,
                                                    (
                                                      omega arith,
                                                      (
                                                        omega arith,
                                                        (
                                                          omega arith,
                                                          (
                                                            omega arith,
                                                            (
                                                            omega arith,
                                                            (
                                                            omega arith,
                                                            (
                                                            omega arith,
                                                            (
                                                            omega arith,
                                                            (
                                                            omega arith,
                                                            (
                                                            omega arith,
                                                            (
                                                            omega arith,
                                                            (
                                                            omega arith,
                                                            (
                                                            omega arith,
                                                            All-append IsByte dst r ad ar,
                                                            ),
                                                            ),
                                                            ),
                                                            ),
                                                            ),
                                                            ),
                                                            ),
                                                            ),
                                                            ),
                                                          ),
                                                        ),
                                                      ),
                                                    ),
                                                  ),
                                                ),
                                              ),
                                            ),
                                          ),
                                        ),
                                      ),
                                    ),
                                  ),
                                ),
                              ),
                            ),
                          ),
                        ),
                      ),
                    ),
                  ),
                ),
              ),
            ),
          ),
        ),
      ),
    ),
  )

  put-IsBcmpFrame :
      (r : List ℕ) (c : ℕ)
      → length dst ≡ 16
      → 13 ≤ len
      → len ≤ length r
      → len < 65536
      → IsBcmpFrame (put_checksum (frame r) c)
  unfolding IsBcmpFrame
  put-IsBcmpFrame r c ed lo hi small = (
    put-is_ipv6 r c,
    put-next_header r c,
    omega (arith, put-payload_len r c small),
    omega (arith, put-payload_len r c small, length-put (frame r) c, length-frame r ed),
  )

  put-u16_at :
      (r : List ℕ) (c : ℕ)
      → length dst ≡ 16
      → 13 ≤ length r
      → u16_at (put_checksum (frame r) c) checksum_offset ≡ c
  unfolding put_checksum
  put-u16_at r c ed h = u16_at-write_checksum (frame r) c (omega (arith, length-frame r ed))

  put-without_checksum :
      (r : List ℕ) (c : ℕ)
      → length dst ≡ 16
      → set (set r 2 0) 3 0 ≡ r
      → without_checksum (put_checksum (frame r) c) ≡ frame r
  unfolding put_checksum without_checksum zero_checksum
  put-without_checksum r c ed z =
      ap zero_checksum (put-clear_source r c)
      ∙ write_checksum-write_checksum (frame r) c 0
      ∙ put-frame r 0 ed
      ∙ ap frame z

  frame-payload_len : (r : List ℕ) → len < 65536 → payload_len (frame r) ≡ len
  unfolding payload_len framed
  frame-payload_len r h = omega arith

  message_of-frame :
      (r : List ℕ)
      → length dst ≡ 16
      → len < 65536
      → message_of (frame r) ≡ said_by id dst (take len r)
  unfolding message_of
  message_of-frame r ed small =
      rw
        (
          frame-payload_len r small,
          frame-bcmp_of len r ed,
          frame-clear_source r,
          frame-dst r ed,
          frame-src r,
          frame-port r,
        )
        refl

  -- The checksum over a message whose field is zero, put into the field.
  pub sealed_accepted :
      (r : List ℕ)
      → All IsByte macs
      → All IsByte dst
      → All IsByte r
      → length dst ≡ 16
      → 13 ≤ len
      → len ≤ length r
      → len < 65536
      → set (set r 2 0) 3 0 ≡ r
      → let c = checksum_calc len (frame r) in
        let message = take len (set (set r 2 (c % 256)) 3 (c / 256)) in
        accept (put_checksum (frame r) c)
        ≡ (some (ok (said_by id dst message)), put_checksum (frame r) c)
  sealed_accepted r am ad ar ed lo hi small zero_field = elim (accept_cases sent sent-bytes) [
    | inl refused ↦ absurd (refused.2 whole)
    | inr (inl bad) ↦ absurd (bad.1 field)
    | inr (inr good) ↦
        good.2
        ∙ ap (λ p. (some (ok p), clear_source sent)) said
        ∙ ap (λ g. (some (ok (said_by id dst (take len (set (set r 2 (c % 256)) 3 (c / 256))))), g))
            (put-clear_source r c)
  ]
    where
      c : ℕ
      c = checksum_calc len (frame r)

      sent : List ℕ
      sent = put_checksum (frame r) c

      whole : IsBcmpFrame sent
      whole = put-IsBcmpFrame r c ed lo hi small

      sent-bytes : All IsByte sent
      sent-bytes =
          put-bytes (frame r) c (checksum_calc-below len (frame r)) (frame-bytes r am ad ar)

      field :
          u16_at (clear_source sent) checksum_offset
          ≡ spec_checksum (payload_len sent) (without_checksum sent)
      field =
          ap (λ g. u16_at g checksum_offset) (put-clear_source r c)
          ∙ put-u16_at r c ed (omega arith)
          ∙ checksum_calc-spec_checksum len (frame r) (frame-bytes r am ad ar)
              (omega (arith, length-frame r ed)) small
          ∙ sym (ap (spec_checksum len) (put-without_checksum r c ed zero_field))
          ∙ sym (ap (λ k. spec_checksum k (without_checksum sent)) (put-payload_len r c small))

      said : message_of sent ≡ said_by id dst (take len (set (set r 2 (c % 256)) 3 (c / 256)))
      said =
          ap message_of (put-frame r c ed)
          ∙ message_of-frame (set (set r 2 (c % 256)) 3 (c / 256)) ed small

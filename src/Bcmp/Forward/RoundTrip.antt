-- ===== src/Bcmp/Forward/RoundTrip.antt =====
-- What a forwarder makes of a message is what `accept` takes.
use bristlemouth_rs.Common.{
  ℕ, ◌+◌, ◌<◌, ◌≤◌, ◌≡◌, refl, sym, ap, ◌∙◌, ok, some, List, [], ◌∷◌, ◌++◌, arith, length, set,
  take, drop, All, All-append, All-set, drop-drop, drop-append_of, length-set, IsByte,
  take-append_of, take-append, set-append_past, copy_at, le→ltb, u16_at, u32_at, from_le_bytes,
  length-append, length-drop, ◌>>=◌,
}
use mathlib.Core.Path.{ap₂}
use bristlemouth_rs.Addr.{nodeid_to_ip, link_local_prefix, write_headers}
use bristlemouth_rs.Bcmp.{
  bcmp_header_len, header_of, put_checksum, zero_checksum, checksum_calc, accept,
}
use bristlemouth_rs.Bcmp.Fields.{All-drop_of}
use bristlemouth_rs.Bcmp.Framing.{framed, framed_split, length-framed, said_by, checksum_calc-below}
use bristlemouth_rs.Bcmp.Sealing.{sealed_with, with_field, sealed_framed}
use bristlemouth_rs.Bcmp.Transmit.Pieces.{
  macs_of, length-macs_of, macs_of-bytes, write_headers-framed,
}
use bristlemouth_rs.Bcmp.Forward.{serialize_forwarded}

-- A message with a header, its checksum zeroed.
abbrev blank : List ℕ → List ℕ
blank r = set (set r 2 0) 3 0

-- What is read of a message with its checksum replaced.
read_back :
    (bcmp rest : List ℕ) (c : ℕ)
    → 13 ≤ length bcmp
    → c < 65536
    → (header_of (take bcmp_header_len (take (length bcmp) (with_field c (blank (bcmp ++ rest)))))
        ≡ record (header_of bcmp) { checksum = c })
      × (drop bcmp_header_len (take (length bcmp) (with_field c (blank (bcmp ++ rest))))
          ≡ drop bcmp_header_len bcmp)
unfolding header_of u16_at u32_at from_le_bytes
read_back (b0 ∷ b1 ∷ b2 ∷ b3 ∷ b4 ∷ b5 ∷ b6 ∷ b7 ∷ b8 ∷ b9 ∷ b10 ∷ b11 ∷ b12 ∷ body) rest c h hc =
    (ground arith, take-append body rest)
read_back bcmp rest c h hc = absurd (omega arith)

blank-blank :
    (bcmp rest : List ℕ) → 13 ≤ length bcmp → blank (blank (bcmp ++ rest)) ≡ blank (bcmp ++ rest)
blank-blank (b0 ∷ b1 ∷ b2 ∷ b3 ∷ bs) rest h = refl
blank-blank bcmp rest h = absurd (omega arith)

blank-bytes : (r : List ℕ) → All IsByte r → All IsByte (blank r)
blank-bytes r a =
    All-set IsByte (set r 2 0) 3 0 (omega arith) (All-set IsByte r 2 0 (omega arith) a)

behind :
    (macs : List ℕ) (len id : ℕ) (dst rest : List ℕ) (n : ℕ)
    → length macs ≡ 12
    → length dst ≡ 16
    → drop (54 + n) (framed macs len id dst rest) ≡ drop n rest
behind macs len id dst rest n em ed =
    sym (drop-drop n 54 (framed macs len id dst rest))
    ∙ ap (drop n) (
        ap (drop 54) (framed_split macs len id dst rest)
        ∙ drop-append_of (framed macs len id dst []) rest 54 (length-framed macs len id dst em ed))

-- The message in place of what was behind the headers.
copied :
    (macs : List ℕ) (len id : ℕ) (dst rest bcmp : List ℕ)
    → length macs ≡ 12
    → length dst ≡ 16
    → zero_checksum (copy_at (framed macs len id dst rest) 54 bcmp)
      ≡ framed macs len id dst (blank (bcmp ++ drop (length bcmp) rest))
unfolding copy_at zero_checksum
copied macs len id dst rest bcmp em ed =
    let e : length (framed macs len id dst []) ≡ 54 = length-framed macs len id dst em ed in
    let junk = bcmp ++ drop (length bcmp) rest in
    ap
      (λ t.
        set (set (t ++ (bcmp ++ drop (54 + length bcmp) (framed macs len id dst rest))) 56 0) 57 0)
      (ap (take 54) (framed_split macs len id dst rest)
        ∙ take-append_of (framed macs len id dst []) rest 54 e)
    ∙ ap (λ t. set (set (framed macs len id dst [] ++ (bcmp ++ t)) 56 0) 57 0)
        (behind macs len id dst rest (length bcmp) em ed)
    ∙ ap (λ t. set t 57 0) (set-append_past (framed macs len id dst []) junk 54 2 0 e)
    ∙ set-append_past (framed macs len id dst []) (set junk 2 0) 54 3 0 e
    ∙ sym (framed_split macs len id dst (blank junk))

-- A message that a forwarder copies behind headers of its own is taken by `accept` with the body and
-- the header that it came with but for the checksum, and with the forwarder's address as its source.
pub serialize_forwarded-accept :
    (buf : List ℕ) (node_id : ℕ) (dst bcmp : List ℕ)
    → 13 ≤ length bcmp
    → length bcmp < 65536
    → 54 + length bcmp ≤ length buf
    → length dst ≡ 16
    → All IsByte dst
    → All IsByte bcmp
    → All IsByte buf
    → (c : ℕ) × (out : List ℕ) × ((write_headers buf
            (nodeid_to_ip link_local_prefix node_id)
            dst
            0xBC
            255
            (length bcmp)
          >>= λ headed. serialize_forwarded headed bcmp)
        ≡ ok (54 + length bcmp, out))
      × (accept out ≡ (
        some (
            ok (record {
              header = record (header_of bcmp) { checksum = c };
              body = drop bcmp_header_len bcmp;
              src = nodeid_to_ip link_local_prefix node_id;
              dst = dst;
              ingress_port = 0;
            })),
        out,
      ))
unfolding serialize_forwarded
serialize_forwarded-accept buf node_id dst bcmp lo small room ed bd bb bf = (
  c,
  out,
  made,
  sealed_framed macs em len node_id dst (blank (bcmp ++ junk)) (macs_of-bytes node_id dst ed bd) bd
        (blank-bytes (bcmp ++ junk)
          (All-append IsByte bcmp junk bb (All-drop_of len rest (All-drop_of 54 buf bf))))
        ed lo
        (omega (
          arith,
          length-set (bcmp ++ junk) 2 0,
          length-set (set (bcmp ++ junk) 2 0) 3 0,
          length-append bcmp junk,
        ))
        small (blank-blank bcmp junk lo)
      ∙ ap (λ r. (some (ok r), out)) said,
)
  where
    len : ℕ
    len = length bcmp

    macs : List ℕ
    macs = macs_of node_id dst

    em : length macs ≡ 12
    em = length-macs_of node_id dst

    rest : List ℕ
    rest = drop 54 buf

    junk : List ℕ
    junk = drop len rest

    c : ℕ
    c = checksum_calc len (framed macs len node_id dst (blank (bcmp ++ junk)))

    out : List ℕ
    out = sealed_with macs len node_id dst (blank (bcmp ++ junk))

    long_enough : 54 + len ≤ length (framed macs len node_id dst rest)
    long_enough = omega (
      arith,
      ap length (framed_split macs len node_id dst rest),
      length-append (framed macs len node_id dst []) rest,
      length-framed macs len node_id dst em ed,
      length-drop 54 buf,
    )

    put : serialize_forwarded (framed macs len node_id dst rest) bcmp ≡ ok (54 + len, out)
    put =
        rw
          (
            le→ltb len 13 lo,
            le→ltb (length (framed macs len node_id dst rest)) (54 + len) long_enough,
          )
          (ap (λ f. ok (54 + len, put_checksum f (checksum_calc len f)))
            (copied macs len node_id dst rest bcmp em ed))

    made :
        (write_headers buf (nodeid_to_ip link_local_prefix node_id) dst 0xBC 255 len >>= λ headed.
        serialize_forwarded headed bcmp)
        ≡ ok (54 + len, out)
    made = rw (write_headers-framed buf len node_id dst (omega arith) ed small) put

    said : said_by node_id dst (take len (with_field c (blank (bcmp ++ junk)))) ≡ record {
      header = record (header_of bcmp) { checksum = c };
      body = drop bcmp_header_len bcmp;
      src = nodeid_to_ip link_local_prefix node_id;
      dst = dst;
      ingress_port = 0;
    }
    said =
        let r =
          read_back bcmp junk c lo
            (checksum_calc-below len (framed macs len node_id dst (blank (bcmp ++ junk)))) in
        ap₂
          (λ h b. record {
            header = h;
            body = b;
            src = nodeid_to_ip link_local_prefix node_id;
            dst = dst;
            ingress_port = 0;
          })
          r.0 r.1

-- ===== src/Bcmp/Transmit/RoundTrip.antt =====
-- What `build` makes is what `accept` takes.
use bristlemouth_rs.Common.{
  ℕ, ◌+◌, ◌/◌, ◌%◌, ◌^◌, ◌<◌, ◌≤◌, ◌≡◌, refl, sym, ap, ◌∙◌, some, ok, List, [], ◌++◌, arith, length,
  set, take, drop, All, All-append, IsByte, length-append, length-set, length-take, length-drop,
  take-append_of, drop-append_of, take_past, Result, BmWireError, le→ltb, to_le_bytes,
  take-append_past, drop-drop, drop-take,
}
use bristlemouth_rs.Addr.{nodeid_to_ip, link_local_prefix}
use bristlemouth_rs.Bcmp.{encoded_header, Received, put_checksum, checksum_calc, accept}
use bristlemouth_rs.Bcmp.Fields.{All-take_of}
use bristlemouth_rs.Bcmp.Framing.{
  framed, framed_split, length-framed, said_by, checksum_calc-below, length-put,
}
use bristlemouth_rs.Bcmp.Sealing.{sealed_with, with_field, sealed_framed}
use bristlemouth_rs.Bcmp.Transmit.{fresh_header, sealed, serialize_in_place, build}
use bristlemouth_rs.Bcmp.Transmit.Pieces.{
  serialize_in_place_front, macs_of, length-macs_of, write_headers-framed, macs_of-bytes,
  fresh_message, encoded_header-bytes,
}

-- What the closure gets and writes: behind the headers and the message's header.
behind :
    (buf w : List ℕ)
    → 67 ≤ length buf
    → (length (drop 54 (take 67 buf ++ w)) ≡ 13 + length w)
      × (drop 13 (drop 54 (take 67 buf ++ w)) ≡ w)
behind buf w room =
    let e : length (take 67 buf) ≡ 67 = omega (arith, length-take 67 buf) in
    (
      omega (arith, length-drop 54 (take 67 buf ++ w), length-append (take 67 buf) w),
      drop-drop 13 54 (take 67 buf ++ w) ∙ drop-append_of (take 67 buf) w 67 e,
    )

module _ (buf : List ℕ) (node_id : ℕ) (dst : List ℕ) (message_type seq_num n : ℕ) (w : List ℕ) where
  message : List ℕ
  message = encoded_header (fresh_header message_type seq_num) ++ take n w

  sent : List ℕ
  sent = sealed_with (macs_of node_id dst) (13 + n) node_id dst message

  front : List ℕ
  front = framed (macs_of node_id dst) (13 + n) node_id dst []

  rest : List ℕ
  rest = drop 54 (take 67 buf ++ w)

  length-front : length dst ≡ 16 → length front ≡ 54
  unfolding front
  length-front ed =
      length-framed (macs_of node_id dst) (13 + n) node_id dst (length-macs_of node_id dst) ed

  -- The part of the buffer that the message is put into.
  cut :
      length dst ≡ 16
      → take (54 + (13 + n)) (framed (macs_of node_id dst) (13 + n) node_id dst rest)
        ≡ front ++ take (13 + n) rest
  unfolding front
  cut ed =
      ap (take (54 + (13 + n))) (framed_split (macs_of node_id dst) (13 + n) node_id dst rest)
      ∙ take-append_past front rest 54 (13 + n) (length-front ed)

  serialized :
      67 ≤ length buf
      → length dst ≡ 16
      → n ≤ length w
      → serialize_in_place (front ++ take (13 + n) rest) message_type seq_num n ≡ ok sent
  unfolding sent front rest sealed message
  serialized room ed fits =
      serialize_in_place_front front (take (13 + n) rest) message_type seq_num n (length-front ed)
        (omega (arith, length-take (13 + n) rest, (behind buf w room).0))
      ∙ ap
          (λ t.
            ok (
              sealed (13 + n) (front ++ (encoded_header (fresh_header message_type seq_num) ++ t))))
          (drop-take 13 n rest ∙ ap (take n) (behind buf w room).1)
      ∙ ap (λ f. ok (sealed (13 + n) f))
          (sym (framed_split (macs_of node_id dst) (13 + n) node_id dst message))

  length-message : n ≤ length w → length message ≡ 13 + n
  unfolding message encoded_header to_le_bytes
  length-message fits = omega (arith, length-take n w)

  length-sent : length dst ≡ 16 → n ≤ length w → length sent ≡ 54 + (13 + n)
  unfolding sent front
  length-sent ed fits =
      length-put (framed (macs_of node_id dst) (13 + n) node_id dst message)
        (checksum_calc (13 + n) (framed (macs_of node_id dst) (13 + n) node_id dst message))
      ∙ ap length (framed_split (macs_of node_id dst) (13 + n) node_id dst message)
      ∙ length-append front message
      ∙ omega (arith, length-front ed, length-message fits)

  headed : List ℕ
  headed = framed (macs_of node_id dst) (13 + n) node_id dst rest

  length-headed : 67 ≤ length buf → length dst ≡ 16 → length headed ≡ 54 + (13 + length w)
  unfolding headed rest front
  length-headed room ed = omega (
    arith,
    ap length (framed_split (macs_of node_id dst) (13 + n) node_id dst rest),
    length-append front rest,
    length-front ed,
    (behind buf w room).0,
  )

  built :
      (body : List ℕ → Result BmWireError (ℕ × List ℕ))
      → 67 ≤ length buf
      → body (drop 67 buf) ≡ ok (n, w)
      → n ≤ length w
      → 13 + n < 65536
      → length dst ≡ 16
      → build buf node_id dst message_type seq_num body
        ≡ ok (54 + (13 + n), sent ++ drop (54 + (13 + n)) headed)
  unfolding build headed rest
  built body room wrote fits small ed =
      let headers =
        write_headers-framed (take 67 buf ++ w) (13 + n) node_id dst
          (omega (arith, length-append (take 67 buf) w, length-take 67 buf)) ed small in
      let long : 54 + (13 + n) ≤ length headed = omega (arith, length-headed room ed) in
      rw
        (
          le→ltb (length buf) 67 room,
          wrote,
          headers,
          le→ltb (length headed) (54 + (13 + n)) long,
          cut ed,
          serialized room ed fits,
        )
        refl

  message-bytes : All IsByte w → All IsByte message
  unfolding message
  message-bytes a =
      All-append IsByte (encoded_header (fresh_header message_type seq_num)) (take n w)
        (encoded_header-bytes message_type seq_num) (All-take_of n w a)

  message-zero : set (set message 2 0) 3 0 ≡ message
  unfolding message encoded_header to_le_bytes
  message-zero = refl

  message-said :
      (c : ℕ)
      → message_type < 65536
      → seq_num < 2 ^ 32
      → c < 65536
      → said_by node_id dst (with_field c message) ≡ record {
        header = record (fresh_header message_type seq_num) { checksum = c };
        body = take n w;
        src = nodeid_to_ip link_local_prefix node_id;
        dst = dst;
        ingress_port = 0;
      }
  unfolding message encoded_header to_le_bytes
  message-said c hm hs hc =
      ap
        (λ h. record {
          header = h;
          body = take n w;
          src = nodeid_to_ip link_local_prefix node_id;
          dst = dst;
          ingress_port = 0;
        })
        (fresh_message message_type seq_num c (take n w) hm hs hc)

-- Into a buffer with room, with a closure that says how much of the slice it wrote, for a message that
-- an IPv6 length can count, `build` puts a frame that `accept` takes from the buffer as it is: with the
-- type, the sequence number and the body as given, and no port.
pub build-accept :
    (buf : List ℕ) (node_id : ℕ) (dst : List ℕ) (message_type seq_num n : ℕ) (w : List ℕ)
    (body : List ℕ → Result BmWireError (ℕ × List ℕ))
    → 67 ≤ length buf
    → body (drop 67 buf) ≡ ok (n, w)
    → n ≤ length w
    → 13 + n < 65536
    → length dst ≡ 16
    → message_type < 65536
    → seq_num < 2 ^ 32
    → All IsByte dst
    → All IsByte w
    → (c : ℕ) × (out : List ℕ) × (build buf node_id dst message_type seq_num body
        ≡ ok (54 + (13 + n), out))
      × (accept (take (54 + (13 + n)) out) ≡ (
        some (
            ok (record {
              header = record (fresh_header message_type seq_num) { checksum = c };
              body = take n w;
              src = nodeid_to_ip link_local_prefix node_id;
              dst = dst;
              ingress_port = 0;
            })),
        take (54 + (13 + n)) out,
      ))
unfolding sent put_checksum
build-accept buf node_id dst message_type seq_num n w body room wrote fits small ed hm hs bd bw = (
  c,
  out,
  built buf node_id dst message_type seq_num n w body room wrote fits small ed,
  ap accept kept
      ∙ taken
      ∙ ap (λ r. (some (ok r), frame)) said
      ∙ ap (λ f. (some (ok reading), f)) (sym kept),
)
  where
    text : List ℕ
    text = message buf node_id dst message_type seq_num n w

    frame : List ℕ
    frame = sent buf node_id dst message_type seq_num n w

    out : List ℕ
    out = frame ++ drop (54 + (13 + n)) (headed buf node_id dst message_type seq_num n w)

    c : ℕ
    c = checksum_calc (13 + n) (framed (macs_of node_id dst) (13 + n) node_id dst text)

    reading : Received
    reading = record {
      header = record (fresh_header message_type seq_num) { checksum = c };
      body = take n w;
      src = nodeid_to_ip link_local_prefix node_id;
      dst = dst;
      ingress_port = 0;
    }

    kept : take (54 + (13 + n)) out ≡ frame
    kept =
        take-append_of frame _ (54 + (13 + n))
          (length-sent buf node_id dst message_type seq_num n w ed fits)

    taken :
        accept frame ≡ (some (ok (said_by node_id dst (take (13 + n) (with_field c text)))), frame)
    taken =
        sealed_framed (macs_of node_id dst) (length-macs_of node_id dst) (13 + n) node_id dst text
          (macs_of-bytes node_id dst ed bd) bd
          (message-bytes buf node_id dst message_type seq_num n w bw) ed (omega arith)
          (omega (arith, length-message buf node_id dst message_type seq_num n w fits)) small
          (message-zero buf node_id dst message_type seq_num n w)

    said : said_by node_id dst (take (13 + n) (with_field c text)) ≡ reading
    said =
        ap (said_by node_id dst) (
          take_past (13 + n) (with_field c text) (
            omega (
              arith,
              length-set text 2 (c % 256),
              length-set (set text 2 (c % 256)) 3 (c / 256),
              length-message buf node_id dst message_type seq_num n w fits,
            )))
        ∙ message-said buf node_id dst message_type seq_num n w c hm hs
            (checksum_calc-below (13 + n) _)

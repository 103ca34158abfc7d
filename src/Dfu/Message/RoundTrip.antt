-- ===== src/Dfu/Message/RoundTrip.antt =====
-- What `encode` writes, `decode` reads back.
use bristlemouth_rs.Common.{
  ℕ, ◌+◌, ◌^◌, ◌<◌, ◌≡◌, refl, ap, List, [], ◌∷◌, ◌++◌, arith, length, drop, ok, to_le_bytes,
  from_le_bytes-to_le_bytes, length-to_le_bytes, u16_at, u32_at, u64_at, prefix-append, take-append,
  length-append, false, suc, le→ltb, err, truncated, ltb, ltb→lt, ltb→le, Bool-cases, inl, inr, ◌⊎◌,
  length-drop, drop-append, subst,
}
use mathlib.Core.List.{append_assoc}
use bristlemouth_rs.Dfu.Message.{
  DfuAddress, ImgInfo, DfuChunk, DfuResult, DfuMessage, start, payload_req, payload, update_end,
  ack, abort, heartbeat, reboot_req, reboot, boot_complete, encode_address, decode_address, of_body,
  encode_info, decode_info, message_type, addresses, encoded_len, encode_tail, encode_bytes,
  is_oversized, encode, decode_u16, decode_result, decode_chunk, decode_as, decode,
}

pub record IsAddress (a : DfuAddress) : Type 0 where
  pub src : a.src_node_id < 256 ^ 8
  pub dst : a.dst_node_id < 256 ^ 8

pub record IsInfo (i : ImgInfo) : Type 0 where
  pub size : i.image_size < 256 ^ 4
  pub chunk : i.chunk_size < 256 ^ 2
  pub crc : i.crc16 < 256 ^ 2
  pub key : i.filter_key < 256 ^ 4
  pub sha : i.git_sha < 256 ^ 4

pub decode-encode_address :
    (a : DfuAddress) (rest : List ℕ)
    → IsAddress a
    → decode_address (encode_address a ++ rest) ≡ ok a
unfolding decode_address encode_address u64_at to_le_bytes
decode-encode_address a rest h = rw (prefix-append 16 (encode_address a) rest refl) (λ i.
    ok (record {
      src_node_id = from_le_bytes-to_le_bytes 8 a.src_node_id h.src i;
      dst_node_id = from_le_bytes-to_le_bytes 8 a.dst_node_id h.dst i;
    }))

pub decode-encode_info :
    (x : ImgInfo) (rest : List ℕ) → IsInfo x → decode_info (encode_info x ++ rest) ≡ ok x
unfolding decode_info encode_info u16_at u32_at to_le_bytes
decode-encode_info x rest h = rw (prefix-append 18 (encode_info x) rest refl) (λ i. ok (record {
  image_size = from_le_bytes-to_le_bytes 4 x.image_size h.size i;
  chunk_size = from_le_bytes-to_le_bytes 2 x.chunk_size h.chunk i;
  crc16 = from_le_bytes-to_le_bytes 2 x.crc16 h.crc i;
  major_ver = x.major_ver;
  minor_ver = x.minor_ver;
  filter_key = from_le_bytes-to_le_bytes 4 x.filter_key h.key i;
  git_sha = from_le_bytes-to_le_bytes 4 x.git_sha h.sha i;
}))

of_body-cons : (t : ℕ) (xs : List ℕ) → of_body (t ∷ xs) ≡ decode_address xs
unfolding of_body
of_body-cons t xs = rw (le→ltb (suc (length xs)) 1 (omega arith))

drop-encode_address : (a : DfuAddress) (ys : List ℕ) → drop 16 (encode_address a ++ ys) ≡ ys
unfolding encode_address to_le_bytes
drop-encode_address a ys = refl

decode-u16 : (v : ℕ) (rest : List ℕ) → v < 256 ^ 2 → decode_u16 (to_le_bytes 2 v ++ rest) ≡ ok v
unfolding decode_u16
decode-u16 v rest h =
    rw (prefix-append 2 (to_le_bytes 2 v) rest (length-to_le_bytes 2 v))
      (ap ok (from_le_bytes-to_le_bytes 2 v h))

decode-result :
    (m : DfuResult) (rest : List ℕ)
    → decode_result m.addresses (m.success ∷ m.err_code ∷ rest) ≡ ok m
unfolding decode_result
decode-result m rest = rw (prefix-append 2 (m.success ∷ m.err_code ∷ []) rest refl)

decode-chunk :
    (m : DfuChunk) (rest : List ℕ)
    → length m.payload < 256 ^ 2
    → decode_chunk m.addresses (to_le_bytes 2 (length m.payload) ++ (m.payload ++ rest)) ≡ ok m
unfolding decode_chunk
decode-chunk m rest h =
    let n = length m.payload in
    rw (decode-u16 n (m.payload ++ rest) h) (
      rw
        (le→ltb (length (to_le_bytes 2 n ++ (m.payload ++ rest))) (2 + n) (
          omega (
            arith,
            length-append (to_le_bytes 2 n) (m.payload ++ rest),
            length-to_le_bytes 2 n,
            length-append m.payload rest,
          )))
        (unfold to_le_bytes in
          ap (λ p. ok (record { addresses = m.addresses; payload = p }))
            (take-append m.payload rest)))

-- The fields of a message fit the widths that the wire has for them.
abbrev pub Fits : DfuMessage → Type 0
Fits (start m) = IsAddress m.addresses × IsInfo m.img_info
Fits (payload_req m) = IsAddress m.addresses × (m.seq_num < 256 ^ 2)
Fits (payload m) = IsAddress m.addresses × (length m.payload < 256 ^ 2)
Fits (update_end m) = IsAddress m.addresses
Fits (ack m) = IsAddress m.addresses
Fits (abort m) = IsAddress m.addresses
Fits (heartbeat a) = IsAddress a
Fits (reboot_req a) = IsAddress a
Fits (reboot a) = IsAddress a
Fits (boot_complete a) = IsAddress a

decode_tail :
    (m : DfuMessage) (rest : List ℕ)
    → Fits m
    → decode_as (message_type m) (addresses m) (encode_tail m ++ rest) ≡ ok m
unfolding decode_as message_type addresses encode_tail
decode_tail (start m) rest h = rw (decode-encode_info m.img_info rest h.1) refl
decode_tail (payload_req m) rest h = rw (decode-u16 m.seq_num rest h.1) refl
decode_tail (payload m) rest h =
    rw (append_assoc (to_le_bytes 2 (length m.payload)) m.payload rest)
      (rw (decode-chunk m rest h.1) refl)
decode_tail (update_end m) rest h = rw (decode-result m rest) refl
decode_tail (ack m) rest h = rw (decode-result m rest) refl
decode_tail (abort m) rest h = rw (decode-result m rest) refl
decode_tail (heartbeat a) rest h = refl
decode_tail (reboot_req a) rest h = refl
decode_tail (reboot a) rest h = refl
decode_tail (boot_complete a) rest h = refl

Fits-IsAddress : (m : DfuMessage) → Fits m → IsAddress (addresses m)
unfolding addresses
Fits-IsAddress (start m) h = h.0
Fits-IsAddress (payload_req m) h = h.0
Fits-IsAddress (payload m) h = h.0
Fits-IsAddress (update_end m) h = h
Fits-IsAddress (ack m) h = h
Fits-IsAddress (abort m) h = h
Fits-IsAddress (heartbeat a) h = h
Fits-IsAddress (reboot_req a) h = h
Fits-IsAddress (reboot a) h = h
Fits-IsAddress (boot_complete a) h = h

-- A message whose fields fit is read back whole from its bytes, whatever follows them.
pub decode-encode_bytes :
    (m : DfuMessage) (rest : List ℕ) → Fits m → decode (encode_bytes m ++ rest) ≡ ok m
unfolding decode encode_bytes
decode-encode_bytes m rest h =
    let tail = encode_tail m ++ rest in
    let body = encode_address (addresses m) ++ tail in
    rw (append_assoc (encode_address (addresses m)) (encode_tail m) rest) (
      rw (of_body-cons (message_type m) body) (
        rw (decode-encode_address (addresses m) tail (Fits-IsAddress m h))
          (rw (drop-encode_address (addresses m) tail) (decode_tail m rest h))))

length-encode_bytes : (m : DfuMessage) → length (encode_bytes m) ≡ encoded_len m
unfolding encode_bytes encoded_len encode_tail to_le_bytes encode_info
length-encode_bytes (start m) = refl
length-encode_bytes (payload_req m) = refl
length-encode_bytes (payload m) = omega arith
length-encode_bytes (update_end m) = refl
length-encode_bytes (ack m) = refl
length-encode_bytes (abort m) = refl
length-encode_bytes (heartbeat a) = refl
length-encode_bytes (reboot_req a) = refl
length-encode_bytes (reboot a) = refl
length-encode_bytes (boot_complete a) = refl

Fits-not-is_oversized : (m : DfuMessage) → Fits m → is_oversized m ≡ false
unfolding is_oversized
Fits-not-is_oversized (payload m) h = ground (arith, h.1)
Fits-not-is_oversized (start _) h = refl
Fits-not-is_oversized _ h = refl

-- `encode` then `decode` over one buffer, on every message whose fields fit: it is refused only for a
-- buffer shorter than the message; otherwise the length returned is that of the bytes written, the
-- rest of the buffer is as it was, and the buffer reads back as the message.
pub decode-encode :
    (m : DfuMessage) (buf : List ℕ)
    → Fits m
    → ((length buf < encoded_len m) × (encode m buf ≡ err truncated))
      ⊎ ((out : List ℕ) × (encode m buf ≡ ok (encoded_len m, out))
          × (decode out ≡ ok m)
          × (length out ≡ length buf)
          × (drop (encoded_len m) out ≡ drop (encoded_len m) buf))
unfolding encode
decode-encode m buf h = elim (Bool-cases (ltb (length buf) (encoded_len m))) [
  | inl short ↦ inl (ltb→lt _ _ short, rw (Fits-not-is_oversized m h, short))
  | inr room ↦
      let rest = drop (encoded_len m) buf in
      inr (
        encode_bytes m ++ rest,
        rw (Fits-not-is_oversized m h, room),
        decode-encode_bytes m rest h,
        omega (
          arith,
          length-append (encode_bytes m) rest,
          length-encode_bytes m,
          length-drop (encoded_len m) buf,
          ltb→le (length buf) (encoded_len m) room,
        ),
        subst (λ n. drop n (encode_bytes m ++ rest) ≡ rest) (length-encode_bytes m)
            (drop-append (encode_bytes m) rest),
      )
]

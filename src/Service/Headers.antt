-- ===== src/Service/Headers.antt =====
-- The headers read back.
use bristlemouth_rs.Common.{
  ℕ, ◌^◌, ◌<◌, ◌≤◌, ◌≡◌, refl, List, ◌++◌, length, ok, ◌>>=◌, to_le_bytes,
  from_le_bytes-to_le_bytes, u32_at, u64_at, prefix-append, fill_prefix_ok,
}
use bristlemouth_rs.Service.{
  RequestHeader, request_bytes, encode_request_header, decode_request_header, ReplyHeader,
  reply_bytes, encode_reply_header, decode_reply_header,
}

length-request_bytes : (h : RequestHeader) → length (request_bytes h) ≡ 8
unfolding to_le_bytes
length-request_bytes h = refl

decode-request_bytes :
    (h : RequestHeader) (rest : List ℕ)
    → h.id < 256 ^ 4
    → h.data_size < 256 ^ 4
    → decode_request_header (request_bytes h ++ rest) ≡ ok h
unfolding decode_request_header u32_at to_le_bytes
decode-request_bytes h rest hi hs = rw (prefix-append 8 (request_bytes h) rest refl) (λ k.
    ok (record {
      id = from_le_bytes-to_le_bytes 4 h.id hi k;
      data_size = from_le_bytes-to_le_bytes 4 h.data_size hs k;
    }))

length-reply_bytes : (h : ReplyHeader) → length (reply_bytes h) ≡ 16
unfolding to_le_bytes
length-reply_bytes h = refl

decode-reply_bytes :
    (h : ReplyHeader) (rest : List ℕ)
    → h.target_node_id < 256 ^ 8
    → h.id < 256 ^ 4
    → h.data_size < 256 ^ 4
    → decode_reply_header (reply_bytes h ++ rest) ≡ ok h
unfolding decode_reply_header u32_at u64_at to_le_bytes
decode-reply_bytes h rest hn hi hs = rw (prefix-append 16 (reply_bytes h) rest refl) (λ k.
    ok (record {
      target_node_id = from_le_bytes-to_le_bytes 8 h.target_node_id hn k;
      id = from_le_bytes-to_le_bytes 4 h.id hi k;
      data_size = from_le_bytes-to_le_bytes 4 h.data_size hs k;
    }))

-- Both headers, written into buffers that have room for them, read back, their fields within their
-- widths.
pub decode_header-encode_header :
    (q : RequestHeader) (r : ReplyHeader) (out out' : List ℕ)
    → q.id < 256 ^ 4
    → q.data_size < 256 ^ 4
    → r.target_node_id < 256 ^ 8
    → r.id < 256 ^ 4
    → r.data_size < 256 ^ 4
    → 8 ≤ length out
    → 16 ≤ length out'
    → ((encode_request_header q out >>= decode_request_header) ≡ ok q)
      × ((encode_reply_header r out' >>= decode_reply_header) ≡ ok r)
unfolding encode_request_header encode_reply_header
decode_header-encode_header q r out out' qi qs rn ri rs room room' = (
  rw (fill_prefix_ok out (request_bytes q) (rw (length-request_bytes q) room))
      (decode-request_bytes q _ qi qs),
  rw (fill_prefix_ok out' (reply_bytes r) (rw (length-reply_bytes r) room'))
      (decode-reply_bytes r _ rn ri rs),
)

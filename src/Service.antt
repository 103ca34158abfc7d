-- ===== src/Service.antt =====
-- bm-wire/src/service/table.rs: the headers of requests and replies, and the table of services.
pub mod Headers
pub mod Table
pub mod Calls
use bristlemouth_rs.Common.{
  ℕ, suc, ◌+◌, ◌-◌, Bool, true, false, not, ◌||◌, Option, none, some, List, [], ◌∷◌, ◌++◌, ltb,
  ◌==◌, if◌then◌else◌, length, get_or, get_elem?, take, drop, position, remove_at, Result, ok, err,
  BmWireError, ◌>>=◌, to_le_bytes, u32_at, u64_at, prefix, fill_prefix,
}

pub record RequestHeader : Type 0 where
  pub id : ℕ
  pub data_size : ℕ

abbrev pub request_bytes : RequestHeader → List ℕ
request_bytes h = to_le_bytes 4 h.id ++ to_le_bytes 4 h.data_size

unfoldable pub encode_request_header : RequestHeader → List ℕ → Result BmWireError (List ℕ)
encode_request_header h out = fill_prefix out (request_bytes h)

unfoldable pub decode_request_header : List ℕ → Result BmWireError RequestHeader
decode_request_header body = do
  b ← prefix 8 body
  ok (record { id = u32_at b 0; data_size = u32_at b 4 })

pub record ReplyHeader : Type 0 where
  pub target_node_id : ℕ
  pub id : ℕ
  pub data_size : ℕ

abbrev pub reply_bytes : ReplyHeader → List ℕ
reply_bytes h = to_le_bytes 8 h.target_node_id ++ (to_le_bytes 4 h.id ++ to_le_bytes 4 h.data_size)

unfoldable pub encode_reply_header : ReplyHeader → List ℕ → Result BmWireError (List ℕ)
encode_reply_header h out = fill_prefix out (reply_bytes h)

unfoldable pub decode_reply_header : List ℕ → Result BmWireError ReplyHeader
decode_reply_header body = do
  b ← prefix 16 body
  ok (record { target_node_id = u64_at b 0; id = u32_at b 8; data_size = u32_at b 12 })

-- The length written and the buffer after it.
unfoldable pub topic : List ℕ → List ℕ → List ℕ → Result BmWireError (ℕ × List ℕ)
topic out service suffix = do
  o ← fill_prefix out (service ++ suffix)
  ok (length service + length suffix, o)

-- The length written and the reply after it; nothing where the request is longer than the reply.
unfoldable pub echo : List ℕ → List ℕ → Option (ℕ × List ℕ)
echo request reply =
    if ltb (length reply) (length request)
    then none
    else some (length request, request ++ drop (length request) reply)

-- `strncmp_eq`, from the index `i` on: an error where the other string is not read.
unfoldable pub compare_from : ℕ → List ℕ → (ℕ → Option ℕ) → Result (Unit {0}) Bool
compare_from i [] b_at = ok true
compare_from i (x ∷ xs) b_at =
    let rest = compare_from (suc i) xs b_at in
    elim (b_at i) [
      | none ↦ err tt
      | some y ↦ if not (x == y) then ok false else if x == 0 then ok true else rest
    ]

unfoldable pub strncmp_eq : List ℕ → ℕ → (ℕ → Option ℕ) → Result (Unit {0}) Bool
unfolding compare_from
strncmp_eq a n b_at = compare_from 0 (take n a) b_at

-- `/req` has four bytes.
abbrev pub request_suffix_len : ℕ
request_suffix_len = 4

pub record Service (H : Type 0) : Type 0 where
  pub name : List ℕ
  pub handler : H

pub data Lookup (H : Type 0) : Type 0 where
  no_service : Lookup H
  over_read short_request length_mismatch topic_mismatch : ℕ → Lookup H
  call : ℕ → List ℕ → H → RequestHeader → List ℕ → Lookup H

-- `capacity` is `N` and `name_limit` is `NAME`. The services are the first `len` elements.
pub record ServiceTable (H : Type 0) : Type 0 where
  pub capacity : ℕ
  pub name_limit : ℕ
  pub services : List (Service H)

-- The topic, then what follows it in the datagram.
unfoldable pub hay : List ℕ → List ℕ → ℕ → Option ℕ
hay topic content i = elim (get_elem? topic i) [
  | some x ↦ some x
  | none ↦ get_elem? content (i - length topic)
]

module _ {H : Type 0} where
  unfoldable pub add_service : ServiceTable H → List ℕ → H → ServiceTable H × Bool
  add_service t name handler =
      if (length t.services == t.capacity) || ltb t.name_limit (length name) then (t, false) else (
        record t { services = t.services ++ (record { name = name; handler = handler } ∷ []) },
        true,
      )

  -- A held name reads as NUL past its end.
  unfoldable pub is_named : List ℕ → Service H → Bool
  is_named name s = elim (strncmp_eq name (length name) (λ i. some (get_or s.name i 0))) [
    | err _ ↦ false
    | ok same ↦ same
  ]

  unfoldable pub remove_service : ServiceTable H → List ℕ → ServiceTable H × Bool
  unfolding is_named
  remove_service t name = elim (position (is_named name) t.services) [
    | none ↦ (t, false)
    | some index ↦ (record t { services = remove_at index t.services }, true)
  ]

  -- The part of `lookup` behind the test of the length.
  unfoldable pub lookup_sized : ℕ → Service H → List ℕ → List ℕ → RequestHeader → Lookup H
  lookup_sized index s topic content header =
      if not (length content == 8 + header.data_size)
      then length_mismatch index
      else if not (length topic == length s.name + request_suffix_len)
      then topic_mismatch index
      else call index s.name s.handler header (drop 8 content)

  -- The part of `lookup` on a service whose name the topic starts with.
  unfoldable pub lookup_named : ℕ → Service H → List ℕ → List ℕ → Lookup H
  unfolding lookup_sized
  lookup_named index s topic content = elim (decode_request_header content) [
    | err _ ↦ short_request index
    | ok header ↦ lookup_sized index s topic content header
  ]

  unfoldable pub lookup_from : ℕ → List (Service H) → List ℕ → List ℕ → Lookup H
  unfolding lookup_named strncmp_eq hay
  lookup_from index [] topic content = no_service
  lookup_from index (s ∷ ss) topic content =
      let rest = lookup_from (suc index) ss topic content in
      elim (strncmp_eq s.name (length s.name) (hay topic content)) [
        | err _ ↦ over_read index
        | ok same ↦ if same then lookup_named index s topic content else rest
      ]

  unfoldable pub lookup : ServiceTable H → List ℕ → List ℕ → Lookup H
  unfolding lookup_from
  lookup t topic content = lookup_from 0 t.services topic content

-- ===== src/Configuration/Head.antt =====
-- bm-wire/src/configuration.rs, `Head` and `copy_string`: the head of a CBOR item as a getter reads it,
-- and a string copied chunk by chunk. Lengths and positions are ℕ: on the sources' 64-bit `usize` no
-- length is refused for its size, and a total that would wrap around is longer than any slot.
use bristlemouth_rs.Common.{
  ℕ, zero, suc, ◌+◌, ◌-◌, ◌*◌, ◌/◌, ◌%◌, ◌^◌, Bool, true, false, not, ◌&&◌, Option, none, some,
  List, [], ◌∷◌, ltb, leb, ◌==◌, if◌then◌else◌, length, take, drop, set, get_elem?, copy_at, Result,
  ok, err,
}
use bristlemouth_rs.Configuration.{ValueType, uint32, int32, float, str, bytes, array}

pub record Head : Type 0 where
  pub major : ℕ
  pub info : ℕ
  pub arg : ℕ

-- `fold(0, |a, &b| (a << 8) | u64::from(b))`, of eight bytes at most.
unfoldable pub fold_be : ℕ → List ℕ → ℕ
fold_be a [] = a
fold_be a (b ∷ bs) = fold_be (a * 256 + b) bs

-- `buf.get(at..at + n)`.
unfoldable pub slice_at : List ℕ → ℕ → ℕ → Option (List ℕ)
slice_at buf at n = if leb (at + n) (length buf) then some (take n (drop at buf)) else none

-- What follows from the argument, or from its absence.
unfoldable pub parse_arg : ℕ → ℕ → Option ℕ → Option Head
parse_arg major info none = none
parse_arg major info (some arg) =
    if (major == 7) && ((info == 24) && ltb arg 32)
    then none
    else some (record { major = major; info = info; arg = arg })

unfoldable pub fold_slice : Option (List ℕ) → Option ℕ
unfolding fold_be
fold_slice none = none
fold_slice (some bs) = some (fold_be 0 bs)

unfoldable pub parse : List ℕ → Option Head
unfolding slice_at parse_arg fold_slice
parse [] = none
parse (descriptor ∷ rest) =
    let major = descriptor / 32 in
    let info = descriptor % 32 in
    if ltb 27 info
    then (if (info == 31) && (leb 2 major && leb major 5)
        then some (record { major = major; info = info; arg = 0 })
        else none)
    else if ltb info 24
    then parse_arg major info (some info)
    else parse_arg major info (fold_slice (slice_at (descriptor ∷ rest) 1 (2 ^ (info - 24))))

abbrev pub is_length_known : Head → Bool
is_length_known head = not (head.info == 31)

unfoldable pub config_type : Head → Option ValueType
config_type head =
    if head.major == 0
    then some uint32
    else if head.major == 1
    then some int32
    else if head.major == 2
    then some bytes
    else if head.major == 3
    then some str
    else if (head.major == 7) && (head.info == 26)
    then some float
    else if head.major == 4
    then some array
    else none

unfoldable pub head_length : Head → Option ℕ
head_length head = if is_length_known head then some head.arg else none

pub data CopyError : Type 0 where
  refused : CopyError
  too_small : ℕ → CopyError

-- The state of the loop of `copy_string`.
pub record Copying : Type 0 where
  pub pos : ℕ
  pub total : ℕ
  pub fits : Bool
  pub out : List ℕ

-- The length of the chunk at `pos` and of its head.
unfoldable pub chunk_head : List ℕ → ℕ → ℕ → Option (ℕ × ℕ)
unfolding slice_at fold_be
chunk_head slot pos info =
    if ltb info 24
    then some (info, 1)
    else if ltb 27 info
    then none
    else sized (slice_at slot (pos + 1) (2 ^ (info - 24)))
  where
    sized : Option (List ℕ) → Option (ℕ × ℕ)
    sized none = none
    sized (some bs) = some (fold_be 0 bs, 1 + length bs)

-- The body of a chunk is copied when it fits and none before it failed to.
unfoldable pub transfer : Copying → ℕ → ℕ → List ℕ → Copying
transfer c start len body =
    let new_total = c.total + len in
    if c.fits && leb new_total (length c.out)
    then record {
      pos = start + len;
      total = new_total;
      fits = c.fits;
      out = copy_at c.out c.total body;
    }
    else record { pos = start + len; total = new_total; fits = false; out = c.out }

unfoldable pub transfer_chunk : List ℕ → Copying → Option (ℕ × ℕ) → Option Copying
unfolding slice_at transfer
transfer_chunk slot c none = none
transfer_chunk slot c (some (len, head_len)) = with_body (slice_at slot (c.pos + head_len) len)
  where
    with_body : Option (List ℕ) → Option Copying
    with_body none = none
    with_body (some body) = some (transfer c (c.pos + head_len) len body)

-- The end of the loop.
unfoldable pub finish_copy : Copying → List ℕ × Result CopyError ℕ
finish_copy c = (
  if c.fits && ltb c.total (length c.out) then set c.out c.total 0 else c.out,
  if c.fits then ok c.total else err (too_small c.total),
)

-- What stands at a position: the end of the string, something that is no chunk of it, or a chunk.
pub data ChunkRead : Type 0 where
  finished malformed : ChunkRead
  copied : Copying → ChunkRead

unfoldable pub chunk_read : Option Copying → ChunkRead
chunk_read none = malformed
chunk_read (some c) = copied c

unfoldable pub at_descriptor : List ℕ → ℕ → Copying → Option ℕ → ChunkRead
unfolding chunk_head transfer_chunk chunk_read
at_descriptor slot kind c none = malformed
at_descriptor slot kind c (some descriptor) =
    if descriptor == 0xff
    then finished
    else if not (descriptor / 32 == kind)
    then malformed
    else chunk_read (transfer_chunk slot c (chunk_head slot c.pos (descriptor % 32)))

-- The rest of the loop: a string whose length is known has one chunk.
unfoldable pub follow :
    (Copying → List ℕ × Result CopyError ℕ)
    → Bool
    → Copying
    → ChunkRead
    → List ℕ × Result CopyError ℕ
unfolding finish_copy
follow rest chunked c finished = finish_copy c
follow rest chunked c malformed = (c.out, err refused)
follow rest chunked c (copied c') = if chunked then rest c' else finish_copy c'

-- Each chunk is read past, so the length of the slot is fuel enough.
unfoldable pub copy_loop : ℕ → List ℕ → ℕ → Bool → Copying → List ℕ × Result CopyError ℕ
unfolding at_descriptor follow
copy_loop zero slot kind chunked c = (c.out, err refused)
copy_loop (suc fuel) slot kind chunked c =
    follow (copy_loop fuel slot kind chunked) chunked c
      (at_descriptor slot kind c (get_elem? slot c.pos))

-- What `out` then holds, and the result. `kind` is the major type, which the source shifts by five.
unfoldable pub copy_string : List ℕ → List ℕ → List ℕ × Result CopyError ℕ
unfolding parse copy_loop
copy_string slot out = from_head (parse slot)
  where
    from_head : Option Head → List ℕ × Result CopyError ℕ
    from_head none = (out, err refused)
    from_head (some head) =
        copy_loop (suc (length slot)) slot head.major (not (is_length_known head)) (record {
          pos = if is_length_known head then 0 else 1;
          total = 0;
          fits = true;
          out = out;
        })

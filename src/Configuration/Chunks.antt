-- ===== src/Configuration/Chunks.antt =====
-- The fuel of the copy of a string: each chunk is read past, so one more than the slot's length is enough.
use bristlemouth_rs.Common.{
  ℕ, zero, suc, ◌+◌, ◌-◌, ◌/◌, ◌%◌, ◌^◌, ◌<◌, ◌≤◌, ◌≡◌, refl, inl, inr, Bool, true, false, not,
  Bool-cases, Option-cases, Option, none, some, List, [], ◌∷◌, ltb, ◌==◌, arith, length, get_elem?,
  Result,
}
use bristlemouth_rs.Configuration.Head.{
  CopyError, Copying, ChunkRead, finished, malformed, copied, chunk_head, slice_at, fold_be,
  transfer, transfer_chunk, chunk_read, at_descriptor, follow, copy_loop,
}

get_elem?-past : (xs : List ℕ) (n : ℕ) → length xs ≤ n → get_elem? xs n ≡ none
get_elem?-past [] n h = refl
get_elem?-past (x ∷ xs) zero h = absurd (omega arith)
get_elem?-past (x ∷ xs) (suc n) h = get_elem?-past xs n (omega arith)

transfer-pos :
    (c : Copying) (start len : ℕ) (body : List ℕ) → (transfer c start len body).pos ≡ start + len
unfolding transfer
transfer-pos c start len body = ground arith

-- What was read from a position ends behind it.
abbrev Ahead : ℕ → ChunkRead → Type 0
Ahead pos finished = Unit
Ahead pos malformed = Unit
Ahead pos (copied c) = pos + 1 ≤ c.pos

-- A chunk whose head has a byte at least.
sized-Ahead :
    (slot : List ℕ) (c : Copying) (len head_len : ℕ)
    → 1 ≤ head_len
    → Ahead c.pos (chunk_read (transfer_chunk slot c (some (len, head_len))))
unfolding chunk_read transfer_chunk
sized-Ahead slot c len head_len h = elim (Option-cases (slice_at slot (c.pos + head_len) len)) [
  | inl short ↦ rw short tt
  | inr (body, whole) ↦ rw whole (omega (arith, h, transfer-pos c (c.pos + head_len) len body))
]

chunk-Ahead :
    (slot : List ℕ) (c : Copying) (info : ℕ)
    → Ahead c.pos (chunk_read (transfer_chunk slot c (chunk_head slot c.pos info)))
unfolding chunk_read transfer_chunk chunk_head
chunk-Ahead slot c info = elim (Bool-cases (ltb info 24)) [
  | inl direct ↦ rw direct (sized-Ahead slot c info 1 (omega arith))
  | inr long ↦ elim (Bool-cases (ltb 27 info)) [
    | inl odd ↦ rw (long, odd) tt
    | inr sized ↦ elim (Option-cases (slice_at slot (c.pos + 1) (2 ^ (info - 24)))) [
      | inl short ↦ rw (long, sized, short) tt
      | inr (bs, whole) ↦
          rw (long, sized, whole) (sized-Ahead slot c (fold_be 0 bs) (1 + length bs) (omega arith))
    ]
  ]
]

at_descriptor-Ahead :
    (slot : List ℕ) (kind : ℕ) (c : Copying) (d : Option ℕ)
    → Ahead c.pos (at_descriptor slot kind c d)
unfolding at_descriptor
at_descriptor-Ahead slot kind c none = tt
at_descriptor-Ahead slot kind c (some descriptor) = elim (Bool-cases (descriptor == 0xff)) [
  | inl end ↦ rw end tt
  | inr more ↦ elim (Bool-cases (not (descriptor / 32 == kind))) [
    | inl other ↦ rw (more, other) tt
    | inr chunk ↦ rw (more, chunk) (chunk-Ahead slot c (descriptor % 32))
  ]
]

-- What follows depends on the rest behind the position alone.
follow_ext :
    (f g : Copying → List ℕ × Result CopyError ℕ) (chunked : Bool) (c : Copying) (r : ChunkRead)
    → Ahead c.pos r
    → ((c' : Copying) → c.pos + 1 ≤ c'.pos → f c' ≡ g c')
    → follow f chunked c r ≡ follow g chunked c r
unfolding follow
follow_ext f g chunked c finished a same = refl
follow_ext f g chunked c malformed a same = refl
follow_ext f g true c (copied c') a same = same c' a
follow_ext f g false c (copied c') a same = refl

-- With fuel for one round more than the slot has bytes behind the position, more fuel changes nothing.
pub copy_loop_enough :
    (fuel : ℕ) (slot : List ℕ) (kind : ℕ) (chunked : Bool) (c : Copying)
    → length slot < fuel + c.pos
    → copy_loop fuel slot kind chunked c ≡ copy_loop (suc fuel) slot kind chunked c
unfolding copy_loop
copy_loop_enough zero slot kind chunked c h = rw (get_elem?-past slot c.pos (omega (arith, h))) refl
copy_loop_enough (suc fuel) slot kind chunked c h =
    follow_ext (copy_loop fuel slot kind chunked) (copy_loop (suc fuel) slot kind chunked) chunked c
      (at_descriptor slot kind c (get_elem? slot c.pos))
      (at_descriptor-Ahead slot kind c (get_elem? slot c.pos))
      (λ c' a. copy_loop_enough fuel slot kind chunked c' (omega (arith, h, a)))

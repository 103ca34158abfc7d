-- ===== src/Configuration/Found.antt =====
-- A value just stored is found under its key.
use bristlemouth_rs.Common.{
  ℕ, ◌+◌, ◌^◌, ◌<◌, ◌≤◌, ◌≡◌, refl, sym, ap, ◌∙◌, inl, inr, Bool, true, false, not, Bool-cases,
  some, List, [], ◌∷◌, ◌++◌, ◌==◌, arith, length, drop, get_or, copy_at, array_at, length-copy_at,
  get_or-copy_at_before, slice-copy_at_before, slice-copy_at_after, slice-copy_at_head,
}
use bristlemouth_rs.Configuration.{
  ValueType, key_size, image_len, key_offset, value_offset, max_image_len, slot_size, Key,
}
use bristlemouth_rs.Configuration.Image.{
  ConfigPartition, num_keys, same_from, is_stored, find_key, write_key_meta, slot,
}
use bristlemouth_rs.Configuration.Access.{counted, store_cbor}
use bristlemouth_rs.Configuration.Places.{
  key_offset_apart, key_offset_room, value_offset_room, find_from_first,
}
use bristlemouth_rs.Configuration.Counting.{Counts, write_key_meta-Counts, count-Counts}
use bristlemouth_rs.Configuration.Keys.{key_slot, is_stored_same}
use bristlemouth_rs.Configuration.Storing.{write_key_meta-slice, is_stored-write_key_meta}

counted-slice :
    (r : ConfigPartition) (exists : Bool) (off n : ℕ)
    → length r.image ≡ max_image_len
    → 9 ≤ off
    → array_at n (counted r exists).image off ≡ array_at n r.image off
unfolding counted
counted-slice r true off n size h = refl
counted-slice r false off n size h =
    slice-copy_at_after r.image 8 ((num_keys r + 1) ∷ []) (omega (arith, size)) off n
      (omega (arith, h))

counted-layout : (r : ConfigPartition) (exists : Bool) → r.layout ≡ (counted r exists).layout
unfolding counted
counted-layout r true = refl
counted-layout r false = refl

-- The slot that was written is one of those counted.
counted-num_keys :
    (r : ConfigPartition) (n idx : ℕ)
    → Counts n r.image
    → idx ≤ n
    → idx < num_keys (counted r (not (idx == n)))
unfolding counted
counted-num_keys r n idx c h = elim (Bool-cases (idx == n)) [
  | inl last ↦
      let more : get_or (copy_at r.image 8 ((num_keys r + 1) ∷ [])) 8 0 ≡ num_keys r + 1 =
        (count-Counts n (num_keys r + 1) r.image c).1 in
      rw last (omega (arith, more, c.1, h))
  | inr inner ↦ rw inner (let small : idx < n = ground arith in omega (arith, small, c.1))
]

module _ (p : ConfigPartition) (idx : ℕ) (key : Key) (value : List ℕ) (ty : ValueType)
    (fits : image_len p.layout ≤ max_image_len) (c : Counts (num_keys p) p.image)
    (low : idx ≤ num_keys p) (room : idx < 50) (small : length value ≤ slot_size) where
  metaed : ConfigPartition
  metaed = write_key_meta p idx key ty

  metaed_layout : p.layout ≡ metaed.layout
  unfolding metaed write_key_meta
  metaed_layout = refl

  metaed_counts : Counts (num_keys p) metaed.image
  unfolding metaed
  metaed_counts = write_key_meta-Counts (num_keys p) p idx key ty fits room c

  valued : List ℕ
  valued = copy_at metaed.image (value_offset p.layout idx) value

  value_room : value_offset p.layout idx + length value ≤ length metaed.image
  value_room = omega (arith, metaed_counts.0, value_offset_room p.layout idx room, small, fits)

  valued_counts : Counts (num_keys p) valued
  unfolding valued
  valued_counts = (
    length-copy_at metaed.image (value_offset p.layout idx) value value_room ∙ metaed_counts.0,
    get_or-copy_at_before metaed.image (value_offset p.layout idx) value value_room 8 0
          (omega arith)
        ∙ metaed_counts.1,
  )

  before_values : key_offset p.layout idx + key_size p.layout ≤ length p.image
  before_values = omega (arith, key_offset_room p.layout idx room, c.0, fits)

  result : ConfigPartition
  result = (store_cbor p idx key value (some ty)).0

  result_image : (off n : ℕ) → 9 ≤ off → array_at n result.image off ≡ array_at n valued off
  unfolding result valued metaed store_cbor metaed_layout valued_counts
  result_image off n h =
      counted-slice (record metaed { image = valued }) (not (idx == num_keys p)) off n
        valued_counts.0 h

  result_layout : p.layout ≡ result.layout
  unfolding result valued metaed store_cbor metaed_layout
  result_layout = counted-layout (record metaed { image = valued }) (not (idx == num_keys p))

  result_keys : idx < num_keys result
  unfolding result valued metaed store_cbor metaed_layout valued_counts
  result_keys =
      counted-num_keys (record metaed { image = valued }) (num_keys p) idx valued_counts low

  -- The slot of the key or of one before it is as the metadata left it.
  result_key_slot :
      (j : ℕ) → j ≤ idx → key_slot p.layout metaed.image j ≡ key_slot p.layout result.image j
  unfolding valued
  result_key_slot j h = sym (
      result_image (key_offset p.layout j) (key_size p.layout) (omega arith)
      ∙ slice-copy_at_before metaed.image (value_offset p.layout idx) value value_room
          (key_offset p.layout j) (key_size p.layout)
          (omega (arith, key_offset_room p.layout j (omega (arith, h, room)))))

  -- The value is in the slot, and behind it what was there.
  pub slot-store_cbor :
      slot (store_cbor p idx key value (some ty)).0 idx ≡ value ++ drop (length value) (slot p idx)
  unfolding result valued metaed metaed_layout
  slot-store_cbor =
      ap (λ l. array_at slot_size result.image (value_offset l idx)) (sym result_layout)
      ∙ result_image (value_offset p.layout idx) slot_size (omega arith)
      ∙ slice-copy_at_head metaed.image (value_offset p.layout idx) value value_room slot_size small
      ∙ ap (λ s. value ++ drop (length value) s)
          (write_key_meta-slice p idx key ty (value_offset p.layout idx) slot_size before_values
            (inr (omega (arith, key_offset_room p.layout idx room))))

  module _ (width : key.len < 256 ^ p.layout.key_len_width) (short : key.len ≤ 32)
      (named : same_from p.image (key_offset p.layout idx) key 0 key.len ≡ true)
      (first : (j : ℕ) → j < idx → is_stored p key j ≡ false) where
    is_stored_here : is_stored result key idx ≡ true
    unfolding metaed
    is_stored_here =
        sym (
          is_stored_same metaed result key idx (sym metaed_layout ∙ result_layout) short (
            ap (λ l. key_slot l metaed.image idx) (sym metaed_layout)
            ∙ result_key_slot idx (omega arith)
            ∙ ap (λ l. key_slot l result.image idx) metaed_layout))
        ∙ is_stored-write_key_meta p idx key ty before_values short width named

    is_stored_before : (j : ℕ) → j < idx → is_stored result key j ≡ false
    unfolding metaed
    is_stored_before j h =
        sym (
          is_stored_same p result key j result_layout short (
            sym (
              write_key_meta-slice p idx key ty (key_offset p.layout j) (key_size p.layout)
                before_values (inl (omega (arith, key_offset_apart p.layout j idx h))))
            ∙ result_key_slot j (omega (arith, h))))
        ∙ first j h

    pub find_key-store_cbor : find_key (store_cbor p idx key value (some ty)).0 key ≡ some idx
    unfolding find_key result
    find_key-store_cbor =
        find_from_first (λ i. is_stored result key i) 0 (num_keys result) idx (omega arith)
          (omega (arith, result_keys)) is_stored_here (λ j _ h. is_stored_before j h)

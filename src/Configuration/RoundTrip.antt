-- ===== src/Configuration/RoundTrip.antt =====
-- A CBOR value that is stored under a key is what a reader of the key gets.
use bristlemouth_rs.Common.{
  ℕ, ◌+◌, ◌^◌, ◌<◌, ◌≤◌, ◌≡◌, refl, sym, ap, subst, ◌∙◌, ◌⊎◌, inl, inr, Bool, true, false,
  Bool-cases, Option-cases, none, some, List, ◌++◌, ltb, leb, ◌==◌, le→ltb, le→leb, ltb→le,
  true≢false, arith, length, drop, copy_at,
}
use bristlemouth_rs.Configuration.{
  ValueType, key_size, key_offset, value_offset, max_num_kv, max_key_len_bytes, slot_size, Key,
  is_valid,
}
use bristlemouth_rs.Configuration.Head.{Head, parse, config_type}
use bristlemouth_rs.Configuration.Image.{
  ConfigPartition, num_keys, same_from, is_stored, find_key, write_key_buf, slot,
}
use bristlemouth_rs.Configuration.Access.{
  store_cbor, set_prepared, prepare_cbor, set_headed, set_cbor, parsed, parsed_at, with_head,
  cbor_of, get_cbor,
}
use bristlemouth_rs.Configuration.Places.{
  key_offset_apart, key_offset_room, find_from-some, find_from-none,
}
use bristlemouth_rs.Configuration.Counting.{Counts, IsValid, write_key_buf-Counts}
use bristlemouth_rs.Configuration.Keys.{is_stored_same}
use bristlemouth_rs.Configuration.Storing.{write_key_buf-slice, same_from-write_key_buf}
use bristlemouth_rs.Configuration.Prefixes.{parse-append}
use bristlemouth_rs.Configuration.Found.{slot-store_cbor, find_key-store_cbor}

-- The key stands in a slot that holds the value before what was there.
abbrev pub Holds : ConfigPartition → ConfigPartition → Key → List ℕ → ℕ → Type 0
Holds p q key value idx =
    (find_key q key ≡ some idx) × (slot q idx ≡ value ++ drop (length value) (slot p idx))

is_stored_prefix :
    (p : ConfigPartition) (key : Key) (i : ℕ)
    → is_stored p key i ≡ true
    → same_from p.image (key_offset p.layout i) key 0 key.len ≡ true
unfolding is_stored
is_stored_prefix p key i e = ground arith

module _ (p : ConfigPartition) (key : Key) (value : List ℕ) (ty : ValueType) (v : IsValid p)
    (width : key.len < 256 ^ p.layout.key_len_width) (small : length value ≤ slot_size) where
  overwritten_Holds :
      (idx : ℕ)
      → key.len ≤ 32
      → find_key p key ≡ some idx
      → Holds p (store_cbor p idx key value (some ty)).0 key value idx
  unfolding find_key
  overwritten_Holds idx short found =
      let first = find_from-some (λ i. is_stored p key i) 0 (num_keys p) idx found in
      let low : idx ≤ num_keys p = omega (arith, first.1) in
      let room : idx < 50 = omega (arith, first.1, v.few) in
      (
        find_key-store_cbor p idx key value ty v.fits v.counts low room small width short
            (is_stored_prefix p key idx first.2) (λ j h. first.3 j (omega arith) h),
        slot-store_cbor p idx key value ty v.fits v.counts low room small,
      )

  module _ (free : num_keys p < 50) (short : key.len ≤ 31) (absent : find_key p key ≡ none) where
    named : ConfigPartition
    named = write_key_buf p (num_keys p) key

    named_layout : p.layout ≡ named.layout
    unfolding named write_key_buf
    named_layout = refl

    key_room : key_offset p.layout (num_keys p) + key_size p.layout ≤ length p.image
    key_room = omega (arith, key_offset_room p.layout (num_keys p) free, v.counts.0, v.fits)

    named_counts : Counts (num_keys p) named.image
    unfolding named
    named_counts = write_key_buf-Counts (num_keys p) p (num_keys p) key v.fits free v.counts

    named_first : (j : ℕ) → j < num_keys p → is_stored named key j ≡ false
    unfolding named find_key
    named_first j h =
        sym (
          is_stored_same p named key j named_layout (omega (arith, short)) (
            sym (
              write_key_buf-slice p (num_keys p) key (key_offset p.layout j) (key_size p.layout)
                (omega (arith, key_room)) (inl (key_offset_apart p.layout j (num_keys p) h)))))
        ∙ find_from-none (λ i. is_stored p key i) 0 (num_keys p) j absent (omega arith)
            (omega (arith, h))

    added_Holds :
        Holds p
          (store_cbor (write_key_buf p (num_keys p) key) (num_keys p) key value (some ty)).0
          key
          value
          (num_keys p)
    unfolding named named_layout named_counts
    added_Holds =
        let c : Counts (num_keys named) named.image = (named_counts.0, refl) in
        let low : num_keys p ≤ num_keys named = omega (arith, named_counts.1) in
        (
          find_key-store_cbor named (num_keys p) key value ty v.fits c low free small width
              (omega (arith, short))
              (same_from-write_key_buf p (num_keys p) key (omega (arith, key_room)) short)
              named_first,
          slot-store_cbor named (num_keys p) key value ty v.fits c low free small
              ∙ ap (λ s. value ++ drop (length value) s)
                  (write_key_buf-slice p (num_keys p) key (value_offset p.layout (num_keys p))
                    slot_size (omega (arith, key_room))
                    (inr (omega (arith, key_offset_room p.layout (num_keys p) free)))),
        )

-- What a reader with room for a slot gets of a key whose value's head parses.
get_cbor_found :
    (q : ConfigPartition) (key : Key) (out : List ℕ) (idx : ℕ) (head : Head)
    → key.len ≤ 32
    → slot_size ≤ length out
    → find_key q key ≡ some idx
    → parse (slot q idx) ≡ some head
    → get_cbor q key out ≡ (copy_at out 0 (slot q idx), some slot_size)
unfolding get_cbor parsed parsed_at with_head cbor_of
get_cbor_found q key out idx head short room found head_found =
    rw
      (
        le→ltb max_key_len_bytes key.len short,
        found,
        head_found,
        le→leb slot_size (length out) room,
      )
      refl

-- Whether the key was there, and at which index, or was added behind the others.
abbrev pub Place : ConfigPartition → Key → ℕ → Type 0
Place p key idx = (find_key p key ≡ some idx) ⊎ ((find_key p key ≡ none) × (idx ≡ num_keys p))

module _ (p : ConfigPartition) (key : Key) (value : List ℕ) (v : IsValid p)
    (width : key.len < 256 ^ p.layout.key_len_width) (short : key.len ≤ 31) where
  set_headed-Holds :
      (head : Head)
      → length value ≤ slot_size
      → (set_headed p key value (some head)).1 ≡ true
      → (idx : ℕ) × Holds p (set_headed p key value (some head)).0 key value idx × Place p key idx
  unfolding set_headed set_prepared prepare_cbor store_cbor
  set_headed-Holds head small taken = elim (Option-cases (find_key p key)) [
    | inr (idx, found) ↦ elim (Option-cases (config_type head)) [
      | inl odd ↦ none_of (rw (found, odd) at taken)
      | inr (ty, known) ↦
          let h = overwritten_Holds p key value ty v width small idx (omega (arith, short)) found in
          (idx, rw (found, known) h, inl found)
    ]
    | inl absent ↦ elim (Bool-cases (is_valid key)) [
      | inr bad ↦ none_of (rw (absent, bad) at taken)
      | inl good ↦ elim (Bool-cases (leb max_num_kv (num_keys p))) [
        | inl full ↦ none_of (rw (absent, good, full) at taken)
        | inr free ↦ elim (Option-cases (config_type head)) [
          | inl odd ↦ none_of (rw (absent, good, free, odd) at taken)
          | inr (ty, known) ↦
              let h = added_Holds p key value ty v width small (ground arith) short absent in
              (num_keys p, rw (absent, good, free, known) h, inr (absent, refl))
        ]
      ]
    ]
  ]
    where
      none_of :
          ◌≡◌ {A = Bool} false true
          → (idx : ℕ) × Holds p (set_headed p key value (some head)).0 key value idx
            × Place p key idx
      none_of e = absurd (true≢false (sym e))

  set_cbor-Holds :
      (set_cbor p key value).1 ≡ true
      → (head : Head) × (parse value ≡ some head)
        × ((idx : ℕ) × Holds p (set_cbor p key value).0 key value idx × Place p key idx)
  unfolding set_cbor set_headed
  set_cbor-Holds taken =
      let len : ltb max_key_len_bytes key.len ≡ false =
        le→ltb max_key_len_bytes key.len (omega (arith, short)) in
      elim (Bool-cases (ltb slot_size (length value))) [
        | inl big ↦ none_of (rw (len, big) at taken)
        | inr small ↦ elim (Bool-cases (length value == 0)) [
          | inl empty ↦ none_of (rw (len, small, empty) at taken)
          | inr full ↦ elim (Option-cases (parse value)) [
            | inl bad ↦ none_of (rw (len, small, full, bad) at taken)
            | inr (head, good) ↦
                let h =
                  set_headed-Holds head (ltb→le slot_size (length value) small)
                    (rw (len, small, full, good) at taken) in
                let same : set_cbor p key value ≡ set_headed p key value (some head) =
                  rw (len, small, full, good) refl in
                (head, good, (h.0, subst (λ r. Holds p r.0 key value h.0) (sym same) h.1, h.2))
          ]
        ]
      ]
    where
      none_of :
          ◌≡◌ {A = Bool} false true
          → (head : Head) × (parse value ≡ some head)
            × ((idx : ℕ) × Holds p (set_cbor p key value).0 key value idx × Place p key idx)
      none_of e = absurd (true≢false (sym e))

-- In a valid partition, a CBOR value that is stored under a key of at most 31 bytes, whose length fits
-- the layout's field, is found by its key: at the index the key had, or behind the other keys if it was
-- not there. A reader with room for a slot gets the value, and behind it what the slot held before.
pub get_cbor-set_cbor :
    (p : ConfigPartition) (key : Key) (value out : List ℕ)
    → IsValid p
    → key.len < 256 ^ p.layout.key_len_width
    → key.len ≤ 31
    → slot_size ≤ length out
    → (set_cbor p key value).1 ≡ true
    → (idx : ℕ) × ((find_key p key ≡ some idx) ⊎ ((find_key p key ≡ none) × (idx ≡ num_keys p)))
      × (find_key (set_cbor p key value).0 key ≡ some idx)
      × (get_cbor (set_cbor p key value).0 key out
          ≡ (copy_at out 0 (value ++ drop (length value) (slot p idx)), some slot_size))
get_cbor-set_cbor p key value out v width short room taken =
    let (head, good, (idx, (found, holds), place)) =
      set_cbor-Holds p key value v width short taken in
    (
      idx,
      place,
      found,
      get_cbor_found (set_cbor p key value).0 key out idx head (omega (arith, short)) room found
            (ap parse holds ∙ parse-append value (drop (length value) (slot p idx)) head good)
          ∙ ap (λ s. (copy_at out 0 s, some slot_size)) holds,
    )

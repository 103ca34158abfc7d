-- ===== src/Configuration/Invariant.antt =====
-- Every operation on a partition keeps its image whole and its keys within the slots.
use bristlemouth_rs.Common.{
  ℕ, ◌+◌, ◌<◌, ◌≤◌, ◌≡◌, refl, ◌∙◌, inl, inr, Bool-cases, Option-cases, Bool, true, false, not,
  Option, none, some, List, ltb, leb, ◌==◌, ltb→le, leb→le, arith, length, drop, copy_at,
  length-copy_at, length-take, length-drop,
}
use bristlemouth_rs.Configuration.{
  ValueType, image_len, value_offset, max_image_len, max_num_kv, slot_size, Key, is_valid,
  max_key_len_bytes,
}
use bristlemouth_rs.Configuration.Head.{Head, parse, config_type}
use bristlemouth_rs.Configuration.Image.{
  ConfigPartition, num_keys, find_key, is_stored, write_key_buf, write_key_meta, slot,
}
use bristlemouth_rs.Configuration.Access.{
  Encoding, place, encode_in, set_placed, set_typed, counted, prepare_cbor, store_cbor,
  set_prepared, set_headed, set_cbor, push, push_string,
}
use bristlemouth_rs.Configuration.Places.{value_offset_room, find_from-some}
use bristlemouth_rs.Configuration.Counting.{
  Counts, count-Counts, write_key_buf-Counts, write_key_meta-Counts, value-Counts, IsValid,
  Counts-IsValid,
}

-- A key that is found stands in one of the counted slots.
pub find_key_bound :
    (p : ConfigPartition) (key : Key) (k : ℕ) → find_key p key ≡ some k → k < num_keys p
unfolding find_key
find_key_bound p key k e =
    omega (arith, (find_from-some (λ i. is_stored p key i) 0 (num_keys p) k e).1)

counted-IsValid :
    (n : ℕ) (p : ConfigPartition) (exists : Bool)
    → image_len p.layout ≤ max_image_len
    → Counts n p.image
    → n ≤ max_num_kv
    → (exists ≡ false → n + 1 ≤ max_num_kv)
    → IsValid (counted p exists)
unfolding counted
counted-IsValid n p true fits c few more = Counts-IsValid n _ fits c few
counted-IsValid n p false fits c few more =
    Counts-IsValid (num_keys p + 1) _ fits (count-Counts n (num_keys p + 1) p.image c)
      (omega (arith, c.1, more refl))

-- An encoder writes within the slot that it is given.
abbrev pub Keeps : Encoding → Type 0
Keeps encode = (s : List ℕ) → length s ≡ slot_size → length (encode s).0 ≡ slot_size

-- The encoders of the typed setters do, whatever heads the `cbor2` crate writes.
pub push-Keeps : (head : List ℕ) → Keeps (push head)
unfolding push
push-Keeps head s h = elim (Bool-cases (leb (length head) (length s))) [
  | inl fits ↦
      rw fits (length-copy_at s 0 head (omega (arith, leb→le (length head) (length s) fits)) ∙ h)
  | inr long ↦ rw long (
      let more : length s < length head = ground arith in
      omega (arith, length-take (length s) head, h, more))
]

pub push_string-Keeps : (head body : List ℕ) → Keeps (push_string head body)
unfolding push_string
push_string-Keeps head body s h = elim (Bool-cases (ltb 9 (length head))) [
  | inl long ↦ rw long h
  | inr short ↦
      let few : length head ≤ 9 = ltb→le 9 (length head) short in
      let headed : length (copy_at s 0 head) ≡ slot_size =
        length-copy_at s 0 head (omega (arith, few, h)) ∙ h in
      elim (Bool-cases (leb (length head + length body) (length s))) [
        | inl fits ↦
            rw (short, fits)
              (length-copy_at (copy_at s 0 head) (length head) body
                  (omega (arith, headed, h, leb→le _ _ fits))
                ∙ headed)
        | inr big ↦ rw (short, big) headed
      ]
]

length-slot :
    (p : ConfigPartition) (idx : ℕ) → IsValid p → idx < 50 → length (slot p idx) ≡ slot_size
length-slot p idx v h = omega (
  arith,
  length-take slot_size (drop (value_offset p.layout idx) p.image),
  length-drop (value_offset p.layout idx) p.image,
  v.counts.0,
  v.fits,
  value_offset_room p.layout idx h,
)

set_placed-IsValid :
    (p : ConfigPartition) (key : Key) (ty : ValueType) (encode : Encoding) (idx : ℕ) (exists : Bool)
    → IsValid p
    → Keeps encode
    → idx < 50
    → (exists ≡ false → num_keys p + 1 ≤ max_num_kv)
    → IsValid (set_placed p key ty encode (some (idx, exists))).0
unfolding set_placed encode_in
set_placed-IsValid p key ty encode idx exists v keeps h more =
    let named : ConfigPartition = write_key_buf p idx key in
    let named_c : Counts (num_keys p) named.image =
      write_key_buf-Counts (num_keys p) p idx key v.fits h v.counts in
    let named_v : IsValid named = Counts-IsValid (num_keys p) named v.fits named_c v.few in
    let short : length (encode (slot named idx)).0 ≡ slot_size =
      keeps (slot named idx) (length-slot named idx named_v h) in
    let filled : ConfigPartition = record named {
      image = copy_at named.image (value_offset p.layout idx) (encode (slot named idx)).0;
    } in
    let filled_c : Counts (num_keys p) filled.image =
      value-Counts (num_keys p) named idx (encode (slot named idx)).0 v.fits h
        (omega (arith, short)) named_c in
    elim (Bool-cases (encode (slot named idx)).1) [
      | inl good ↦ rw good (
          counted-IsValid (num_keys p) (write_key_meta filled idx key ty) exists v.fits
            (write_key_meta-Counts (num_keys p) filled idx key ty v.fits h filled_c) v.few more)
      | inr bad ↦ rw bad (Counts-IsValid (num_keys p) filled v.fits filled_c v.few)
    ]

pub set_typed-IsValid :
    (p : ConfigPartition) (key : Key) (ty : ValueType) (encode : Encoding)
    → IsValid p
    → Keeps encode
    → IsValid (set_typed p key ty encode).0
unfolding set_typed place set_placed
set_typed-IsValid p key ty encode v keeps = elim (Bool-cases (ltb max_key_len_bytes key.len)) [
  | inl long ↦ rw long v
  | inr short ↦ elim (Bool-cases (leb max_num_kv (num_keys p))) [
    | inl full ↦ rw (short, full) v
    | inr free ↦
        let room : num_keys p < 50 = ground arith in
        elim (Option-cases (find_key p key)) [
          | inl absent ↦ elim (Bool-cases (is_valid key)) [
            | inl good ↦
                rw (short, free, absent, good)
                  (set_placed-IsValid p key ty encode (num_keys p) false v keeps room
                    (λ _. omega (arith, room)))
            | inr bad ↦ rw (short, free, absent, bad) v
          ]
          | inr (idx, found) ↦
              rw (short, free, found)
                (set_placed-IsValid p key ty encode idx true v keeps
                  (omega (arith, find_key_bound p key idx found, room)) (λ _. omega (arith, room)))
        ]
  ]
]

fits_meta :
    (p : ConfigPartition) (idx : ℕ) (key : Key) (ty : ValueType)
    → image_len p.layout ≤ max_image_len
    → image_len (write_key_meta p idx key ty).layout ≤ max_image_len
unfolding write_key_meta
fits_meta p idx key ty fits = fits

fits_buf :
    (p : ConfigPartition) (idx : ℕ) (key : Key)
    → image_len p.layout ≤ max_image_len
    → image_len (write_key_buf p idx key).layout ≤ max_image_len
unfolding write_key_buf
fits_buf p idx key fits = fits

store_cbor-IsValid :
    (n : ℕ) (p : ConfigPartition) (idx : ℕ) (key : Key) (value : List ℕ) (ty : Option ValueType)
    → image_len p.layout ≤ max_image_len
    → Counts n p.image
    → n ≤ max_num_kv
    → idx < 50
    → idx ≤ n
    → length value ≤ slot_size
    → IsValid (store_cbor p idx key value ty).0
unfolding store_cbor
store_cbor-IsValid n p idx key value none fits c few h low short = Counts-IsValid n p fits c few
store_cbor-IsValid n p idx key value (some ty) fits c few h low short =
    let q : ConfigPartition = write_key_meta p idx key ty in
    let q_c : Counts n q.image = write_key_meta-Counts n p idx key ty fits h c in
    counted-IsValid n (record q { image = copy_at q.image (value_offset q.layout idx) value })
      (not (idx == num_keys p)) (fits_meta p idx key ty fits)
      (value-Counts n q idx value (fits_meta p idx key ty fits) h short q_c) few
      (λ last. omega (arith, last_is last, c.1, h))
  where
    last_is : not (idx == num_keys p) ≡ false → idx ≡ num_keys p
    last_is e = ground arith

set_headed-IsValid :
    (p : ConfigPartition) (key : Key) (value : List ℕ) (head : Head)
    → IsValid p
    → length value ≤ 50
    → IsValid (set_prepared p key value head (prepare_cbor p key (find_key p key))).0
unfolding prepare_cbor set_prepared
set_headed-IsValid p key value head v short = elim (Option-cases (find_key p key)) [
  | inr (idx, found) ↦
      let low : idx < num_keys p = find_key_bound p key idx found in
      rw found (
        store_cbor-IsValid (num_keys p) p idx key value (config_type head) v.fits v.counts v.few
          (omega (arith, low, v.few)) (omega (arith, low)) short)
  | inl absent ↦ elim (Bool-cases (is_valid key)) [
    | inr bad ↦ rw (absent, bad) v
    | inl good ↦ elim (Bool-cases (leb max_num_kv (num_keys p))) [
      | inl full ↦ rw (absent, good, full) v
      | inr free ↦
          let room : num_keys p < 50 = ground arith in
          rw (absent, good, free)
            (store_cbor-IsValid (num_keys p) (write_key_buf p (num_keys p) key) (num_keys p) key
              value (config_type head) (fits_buf p (num_keys p) key v.fits)
              (write_key_buf-Counts (num_keys p) p (num_keys p) key v.fits room v.counts) v.few room
              (omega arith) short)
    ]
  ]
]

pub set_cbor-IsValid :
    (p : ConfigPartition) (key : Key) (value : List ℕ)
    → IsValid p
    → IsValid (set_cbor p key value).0
unfolding set_cbor set_headed prepare_cbor set_prepared
set_cbor-IsValid p key value v = elim (Bool-cases (ltb max_key_len_bytes key.len)) [
  | inl long ↦ rw long v
  | inr short ↦ elim (Bool-cases (ltb slot_size (length value))) [
    | inl big ↦ rw (short, big) v
    | inr small ↦ elim (Bool-cases (length value == 0)) [
      | inl empty ↦ rw (short, small, empty) v
      | inr some_bytes ↦ elim (Option-cases (parse value)) [
        | inl bad ↦ rw (short, small, some_bytes, bad) v
        | inr (head, good) ↦
            rw (short, small, some_bytes, good)
              (set_headed-IsValid p key value head v (ltb→le _ _ small))
      ]
    ]
  ]
]

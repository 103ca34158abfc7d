-- ===== src/Configuration/Storing.antt =====
-- What a write leaves of the slots of keys and values, and that a key just written is found.
use Prim.Native.Nat.{min}
use bristlemouth_rs.Common.{
  ℕ, zero, suc, ◌+◌, ◌^◌, ◌<◌, ◌≤◌, ◌≡◌, refl, sym, ap, ◌∙◌, ◌⊎◌, inl, inr, Bool, true, false,
  Bool-cases, List, [], ◌∷◌, ◌==◌, ==_refl, ==_iff, if◌then◌else◌, arith, length, take, drop,
  get_or, copy_at, array_at, to_le_bytes, from_le_bytes-to_le_bytes, length-to_le_bytes,
  length-copy_at, length-take, get_or-take, get_or-copy_at_before, get_or-copy_at_in,
  slice-copy_at_before, slice-copy_at_after, take-drop-copy_at,
}
use bristlemouth_rs.Configuration.{
  ValueType, type_number, key_size, key_offset, Key, key_byte, strlen, strlen_of,
}
use bristlemouth_rs.Configuration.Image.{
  ConfigPartition, stored_key, same_from, is_stored, write_key_buf, write_key_meta,
}
use bristlemouth_rs.Configuration.Places.{le_cases}
use bristlemouth_rs.Configuration.Keys.{same_from_ext}

-- `write_key_meta` leaves every range that ends before it or starts behind the key's slot.
pub write_key_meta-slice :
    (p : ConfigPartition) (idx : ℕ) (key : Key) (ty : ValueType) (off n : ℕ)
    → key_offset p.layout idx + key_size p.layout ≤ length p.image
    → (off + n ≤ key_offset p.layout idx + 32) ⊎ (key_offset p.layout idx + key_size p.layout ≤ off)
    → array_at n (write_key_meta p idx key ty).image off ≡ array_at n p.image off
unfolding write_key_meta
write_key_meta-slice p idx key ty off n room side =
    let kw : ℕ = p.layout.key_len_width in
    let vw : ℕ = p.layout.value_type_width in
    let at : ℕ = key_offset p.layout idx + 32 in
    let tys : List ℕ = to_le_bytes vw (type_number ty) in
    let lens : List ℕ = to_le_bytes kw key.len in
    let room₁ : at + kw + length tys ≤ length p.image =
      omega (arith, length-to_le_bytes vw (type_number ty), room) in
    let room₂ : at + length lens ≤ length (copy_at p.image (at + kw) tys) =
      omega
        (arith, length-to_le_bytes kw key.len, length-copy_at p.image (at + kw) tys room₁, room) in
    elim side [
      | inl before ↦
          slice-copy_at_before (copy_at p.image (at + kw) tys) at lens room₂ off n before
          ∙ slice-copy_at_before p.image (at + kw) tys room₁ off n (omega (arith, before))
      | inr behind ↦
          slice-copy_at_after (copy_at p.image (at + kw) tys) at lens room₂ off n
            (omega (arith, length-to_le_bytes kw key.len, behind))
          ∙ slice-copy_at_after p.image (at + kw) tys room₁ off n
              (omega (arith, length-to_le_bytes vw (type_number ty), behind))
    ]

-- `write_key_buf` leaves every range that ends before it or starts behind the key's text.
pub write_key_buf-slice :
    (p : ConfigPartition) (idx : ℕ) (key : Key) (off n : ℕ)
    → key_offset p.layout idx + 32 ≤ length p.image
    → (off + n ≤ key_offset p.layout idx) ⊎ (key_offset p.layout idx + 32 ≤ off)
    → array_at n (write_key_buf p idx key).image off ≡ array_at n p.image off
unfolding write_key_buf
write_key_buf-slice p idx key off n room side =
    let at : ℕ = key_offset p.layout idx in
    let m : ℕ = min (strlen key) 31 in
    let nul : List ℕ = 0 ∷ [] in
    let few : m ≤ 31 = omega arith in
    let size : length (take m key.text) ≤ m = omega (arith, length-take m key.text) in
    let room₁ : at + length (take m key.text) ≤ length p.image = omega (arith, size, few, room) in
    let room₂ : at + m + length nul ≤ length (copy_at p.image at (take m key.text)) =
      omega (arith, length-copy_at p.image at (take m key.text) room₁, few, room) in
    elim side [
      | inl before ↦
          slice-copy_at_before (copy_at p.image at (take m key.text)) (at + m) nul room₂ off n
            (omega (arith, before))
          ∙ slice-copy_at_before p.image at (take m key.text) room₁ off n before
      | inr behind ↦
          slice-copy_at_after (copy_at p.image at (take m key.text)) (at + m) nul room₂ off n
            (omega (arith, few, behind))
          ∙ slice-copy_at_after p.image at (take m key.text) room₁ off n
              (omega (arith, few, size, behind))
    ]

-- A key whose text is in the slot is the one stored there, once its length is.
pub is_stored-write_key_meta :
    (p : ConfigPartition) (idx : ℕ) (key : Key) (ty : ValueType)
    → key_offset p.layout idx + key_size p.layout ≤ length p.image
    → key.len ≤ 32
    → key.len < 256 ^ p.layout.key_len_width
    → same_from p.image (key_offset p.layout idx) key 0 key.len ≡ true
    → is_stored (write_key_meta p idx key ty) key idx ≡ true
unfolding is_stored stored_key write_key_meta
is_stored-write_key_meta p idx key ty room short fits same =
    let kw : ℕ = p.layout.key_len_width in
    let vw : ℕ = p.layout.value_type_width in
    let at : ℕ = key_offset p.layout idx + 32 in
    let tys : List ℕ = to_le_bytes vw (type_number ty) in
    let lens : List ℕ = to_le_bytes kw key.len in
    let typed : List ℕ = copy_at p.image (at + kw) tys in
    let room₁ : at + kw + length tys ≤ length p.image =
      omega (arith, length-to_le_bytes vw (type_number ty), room) in
    let room₂ : at + length lens ≤ length typed =
      omega
        (arith, length-to_le_bytes kw key.len, length-copy_at p.image (at + kw) tys room₁, room) in
    let stored_len : array_at kw (copy_at typed at lens) at ≡ lens =
      ap (λ n. take n (drop at (copy_at typed at lens))) (sym (length-to_le_bytes kw key.len))
      ∙ take-drop-copy_at typed at lens room₂ in
    let texts : same_from (copy_at typed at lens) (key_offset p.layout idx) key 0 key.len
        ≡ same_from p.image (key_offset p.layout idx) key 0 key.len =
      same_from_ext (copy_at typed at lens) p.image (key_offset p.layout idx)
        (key_offset p.layout idx) key 0 key.len
        (λ i a b.
          get_or-copy_at_before typed at lens room₂ (key_offset p.layout idx + i) 0
            (omega (arith, b, short))
          ∙ get_or-copy_at_before p.image (at + kw) tys room₁ (key_offset p.layout idx + i) 0
              (omega (arith, b, short))) in
    rw (stored_len, from_le_bytes-to_le_bytes kw key.len fits, ==_refl key.len, texts, same) refl

strlen_of-le : (bs : List ℕ) → strlen_of bs ≤ length bs
unfolding strlen_of
strlen_of-le [] = omega arith
strlen_of-le (b ∷ bs) = elim (Bool-cases (b == 0)) [
  | inl nul ↦ rw nul (omega arith)
  | inr more ↦ rw more (omega (arith, strlen_of-le bs))
]

-- A string ends with a NUL, or where its text does.
get_or-strlen_of : (bs : List ℕ) → get_or bs (strlen_of bs) 0 ≡ 0
unfolding strlen_of
get_or-strlen_of [] = refl
get_or-strlen_of (b ∷ bs) = elim (Bool-cases (b == 0)) [
  | inl nul ↦ rw nul ((==_iff b 0).0 nul)
  | inr more ↦ rw more (get_or-strlen_of bs)
]

-- A text that agrees up to its NUL compares equal.
same_from-text :
    (xs : List ℕ) (off : ℕ) (key : Key) (m j n : ℕ)
    → m ≡ min (strlen key) 31
    → ((i : ℕ) → i < m → get_or xs (off + i) 0 ≡ key_byte key i)
    → get_or xs (off + m) 0 ≡ 0
    → j ≤ m
    → j + n ≤ 31
    → same_from xs off key j n ≡ true
unfolding same_from
same_from-text xs off key m j zero size text nul low high = refl
same_from-text xs off key m j (suc n) size text nul low high = elim (le_cases j m low) [
  | inl last ↦
      let whole : j ≡ strlen key = omega (arith, size, last, high) in
      let ends : key_byte key j ≡ 0 = ap (key_byte key) whole ∙ get_or-strlen_of key.text in
      let stops : get_or xs (off + j) 0 ≡ 0 = ap (λ i. get_or xs (off + i) 0) last ∙ nul in
      rw (ends, stops) refl
  | inr inner ↦
      let here : get_or xs (off + j) 0 ≡ key_byte key j = text j (omega (arith, inner)) in
      let rest : same_from xs off key (j + 1) n ≡ true =
        same_from-text xs off key m (j + 1) n size text nul inner (omega (arith, high)) in
      rw (here, ==_refl (key_byte key j), rest) (if_same (key_byte key j == 0))
]
  where
    if_same : (b : Bool) → (if b then true else true) ≡ true
    if_same true = refl
    if_same false = refl

-- A key of up to 31 bytes is stored whole.
pub same_from-write_key_buf :
    (p : ConfigPartition) (idx : ℕ) (key : Key)
    → key_offset p.layout idx + 32 ≤ length p.image
    → key.len ≤ 31
    → same_from (write_key_buf p idx key).image (key_offset p.layout idx) key 0 key.len ≡ true
unfolding write_key_buf
same_from-write_key_buf p idx key room short =
    let at : ℕ = key_offset p.layout idx in
    let m : ℕ = min (strlen key) 31 in
    let nul : List ℕ = 0 ∷ [] in
    let few : m ≤ 31 = omega arith in
    let size : length (take m key.text) ≡ m =
      omega (arith, length-take m key.text, strlen_of-le key.text) in
    let texted : List ℕ = copy_at p.image at (take m key.text) in
    let room₁ : at + length (take m key.text) ≤ length p.image = omega (arith, size, few, room) in
    let room₂ : at + m + length nul ≤ length texted =
      omega (arith, length-copy_at p.image at (take m key.text) room₁, few, room) in
    let here : at + m + 0 ≡ at + m = omega arith in
    same_from-text (copy_at texted (at + m) nul) at key m 0 key.len refl
      (λ i h.
        get_or-copy_at_before texted (at + m) nul room₂ (at + i) 0 (omega (arith, h))
        ∙ get_or-copy_at_in p.image at (take m key.text) room₁ i 0 (omega (arith, h, size))
        ∙ get_or-take key.text m i 0 h)
      (ap (λ i. get_or (copy_at texted (at + m) nul) i 0) (sym here)
        ∙ get_or-copy_at_in texted (at + m) nul room₂ 0 0 (omega arith))
      (omega arith) (omega (arith, short))

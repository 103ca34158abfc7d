-- ===== src/Configuration/Keys.antt =====
-- The comparison of a key reads nothing but the key's slot.
use bristlemouth_rs.Common.{
  ℕ, zero, suc, ◌+◌, ◌<◌, ◌≤◌, ◌≡◌, refl, sym, ap, ◌∙◌, List, arith, take, drop, get_or, array_at,
  get_or-take, get_or-drop, drop-drop, drop-take, take-take,
}
use bristlemouth_rs.Configuration.{Layout, key_size, key_offset, Key}
use bristlemouth_rs.Configuration.Image.{ConfigPartition, stored_key, same_from, is_stored}

-- The comparison depends on the bytes it reads alone.
pub same_from_ext :
    (xs ys : List ℕ) (off off' : ℕ) (key : Key) (j n : ℕ)
    → ((i : ℕ) → j ≤ i → i < j + n → get_or xs (off + i) 0 ≡ get_or ys (off' + i) 0)
    → same_from xs off key j n ≡ same_from ys off' key j n
unfolding same_from
same_from_ext xs ys off off' key j zero e = refl
same_from_ext xs ys off off' key j (suc n) e =
    let here : get_or xs (off + j) 0 ≡ get_or ys (off' + j) 0 = e j (omega arith) (omega arith) in
    let rest : same_from xs off key (j + 1) n ≡ same_from ys off' key (j + 1) n =
      same_from_ext xs ys off off' key (j + 1) n (λ i a b. e i (omega arith) (omega arith)) in
    rw (here, rest) refl

-- The bytes of the slot of a key.
abbrev pub key_slot : Layout → List ℕ → ℕ → List ℕ
key_slot l image i = array_at (key_size l) image (key_offset l i)

get_or-key_slot :
    (l : Layout) (xs : List ℕ) (i m : ℕ)
    → m < 32
    → get_or (key_slot l xs i) m 0 ≡ get_or xs (key_offset l i + m) 0
get_or-key_slot l xs i m h =
    get_or-take (drop (key_offset l i) xs) (key_size l) m 0 (omega arith)
    ∙ get_or-drop xs (key_offset l i) m 0

key_len-key_slot :
    (l : Layout) (xs : List ℕ) (i : ℕ)
    → array_at l.key_len_width xs (key_offset l i + 32)
      ≡ take l.key_len_width (drop 32 (key_slot l xs i))
key_len-key_slot l xs i =
    let w : ℕ = l.key_len_width + l.value_type_width in
    let z : 32 + w ≡ key_size l = omega arith in
    ap (take l.key_len_width) (sym (drop-drop 32 (key_offset l i) xs))
    ∙ sym (take-take l.key_len_width w (drop 32 (drop (key_offset l i) xs)) (omega arith))
    ∙ ap (take l.key_len_width) (sym (drop-take 32 w (drop (key_offset l i) xs)))
    ∙ ap (λ n. take l.key_len_width (drop 32 (take n (drop (key_offset l i) xs)))) z

-- Two partitions of a layout whose slots are the same hold the same key there.
pub is_stored_same :
    (p q : ConfigPartition) (key : Key) (i : ℕ)
    → p.layout ≡ q.layout
    → key.len ≤ 32
    → key_slot p.layout p.image i ≡ key_slot p.layout q.image i
    → is_stored p key i ≡ is_stored q key i
unfolding is_stored stored_key
is_stored_same p q key i layouts short e =
    let lens : array_at p.layout.key_len_width p.image (key_offset p.layout i + 32)
        ≡ array_at p.layout.key_len_width q.image (key_offset p.layout i + 32) =
      key_len-key_slot p.layout p.image i
      ∙ ap (λ s. take p.layout.key_len_width (drop 32 s)) e
      ∙ sym (key_len-key_slot p.layout q.image i) in
    let texts : same_from p.image (key_offset p.layout i) key 0 key.len
        ≡ same_from q.image (key_offset p.layout i) key 0 key.len =
      same_from_ext p.image q.image (key_offset p.layout i) (key_offset p.layout i) key 0 key.len
        (λ m a b.
          sym (get_or-key_slot p.layout p.image i m (omega (arith, b, short)))
          ∙ ap (λ s. get_or s m 0) e
          ∙ get_or-key_slot p.layout q.image i m (omega (arith, b, short))) in
    rw (← layouts, lens, texts) refl

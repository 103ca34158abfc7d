-- ===== src/Dfu/Stream/Fifo.antt =====
-- The stream buffer is a bounded FIFO of bytes.
use bristlemouth_rs.Common.{
  ℕ, zero, suc, ◌+◌, ◌-◌, ◌%◌, ◌≤◌, ◌<◌, ◌≡◌, ◌≢◌, refl, sym, ap, ◌∙◌, subst, inl, inr, Bool, true,
  false, Option, none, some, List, [], ◌∷◌, ◌++◌, arith, ltb, ltb→le, ltb→lt, leb, ◌&&◌, ◌==◌,
  ==_iff, if◌then◌else◌, Bool-cases, length, get_or, set, take, drop, length-set, get_or-set_self,
  get_or-set_ne, append_assoc, append-nil, take-append_of, drop-append_of, take_past, drop_past,
  copy_at, take-copy_at,
}
use Prim.Native.Nat.{min}
use mathlib.Core.Path.{ap₂}
use mathlib.Core.Option.{some-injective}
use native.Mathlib.Nat.{mod-add-mod, mod-eq_of_lt, mod-eq-sub-mod, mod-lt, mod-mod}
use bristlemouth_rs.Dfu.Stream.{StreamBuffer, new_stream, write_ring, send, read_ring, receive}

pub record IsStream (s : StreamBuffer) : Type 0 where
  pub some_room : 0 < s.capacity
  pub in_storage : s.capacity ≤ length s.storage
  pub count_in : s.count ≤ s.capacity

-- The bytes waiting, oldest first.
abbrev pub waiting : StreamBuffer → List ℕ
waiting s = read_ring s.storage s.capacity s.head s.count

-- A FIFO of at most `capacity` bytes: a send that does not fit is refused whole.
unfoldable pub spec_send : ℕ → List ℕ → List ℕ → List ℕ × Bool
spec_send capacity q bytes =
    if ltb capacity (length q + length bytes) then (q, false) else (q ++ bytes, true)

-- At most `n` bytes off the front, `none` from an empty FIFO.
unfoldable pub spec_receive : List ℕ → ℕ → List ℕ × Option (List ℕ)
spec_receive q n = if length q == 0 then (q, none) else (drop n q, some (take n q))

length-read_ring : (st : List ℕ) (size at n : ℕ) → length (read_ring st size at n) ≡ n
unfolding read_ring
length-read_ring st size at zero = refl
length-read_ring st size at (suc n) = ap suc (length-read_ring st size (at + 1) n)

-- Fewer than `size` steps on, another index.
step-ne : (size at k : ℕ) → 0 < size → suc k < size → (at + suc k) % size ≢ at % size
step-ne size at k hc hk e = apart (at % size) (mod-lt at hc) (mod-add-mod at size (suc k) ∙ e)
  where
    apart : (h : ℕ) → h < size → (h + suc k) % size ≢ h
    apart h lt same = elim (Bool-cases (ltb (h + suc k) size)) [
      | inl below ↦ ground (arith, mod-eq_of_lt {n = h + suc k} {m = size})
      | inr above ↦ omega (
        arith,
        ltb→le _ _ above,
        mod-eq-sub-mod {n = h + suc k} {m = size} (omega (arith, ltb→le _ _ above)),
        mod-eq_of_lt {n = h + suc k - size} {m = size} (omega (arith, ltb→le _ _ above)),
      )
    ]

-- A write that comes `n` places after `at` leaves the `n` bytes from there alone.
read_ring-set :
    (st : List ℕ) (size at n k x : ℕ)
    → 0 < size
    → n + k < size
    → read_ring (set st ((at + (n + k)) % size) x) size at n ≡ read_ring st size at n
unfolding read_ring
read_ring-set st size at zero k x hc h = refl
read_ring-set st size at (suc n) k x hc h =
    ap₂ ◌∷◌
      (get_or-set_ne st ((at + (suc n + k)) % size) (at % size) x 0 (λ e.
        step-ne size at (n + k) hc (omega arith) (ap (λ j. (at + j) % size) (omega arith) ∙ e)))
      (ap (λ j. read_ring (set st (j % size) x) size (at + 1) n) (omega arith)
        ∙ read_ring-set st size (at + 1) n k x hc (omega arith))

read_ring-append :
    (st : List ℕ) (size at n m : ℕ)
    → read_ring st size at (n + m) ≡ read_ring st size at n ++ read_ring st size (at + n) m
unfolding read_ring
read_ring-append st size at zero m =
    let e : at ≡ at + 0 = omega arith in
    let f : 0 + m ≡ m = omega arith in ap₂ (read_ring st size) e f
read_ring-append st size at (suc n) m =
    let e : suc n + m ≡ suc (n + m) = omega arith in
    ap (read_ring st size at) e
    ∙ ap (◌∷◌ (get_or st (at % size) 0)) (
        read_ring-append st size (at + 1) n m
        ∙ ap (λ a. read_ring st size (at + 1) n ++ read_ring st size a m) (omega arith))

-- Only the index's remainder counts.
read_ring_mod :
    (st : List ℕ) (size at n : ℕ) → read_ring st size (at % size) n ≡ read_ring st size at n
unfolding read_ring
read_ring_mod st size at n = same (at % size) at n (mod-mod at size)
  where
    same : (a b n : ℕ) → a % size ≡ b % size → read_ring st size a n ≡ read_ring st size b n
    same a b zero e = refl
    same a b (suc n) e = ap₂ ◌∷◌ (ap (λ j. get_or st j 0) e) (
        same (a + 1) (b + 1) n
          (sym (mod-add-mod a size 1) ∙ ap (λ j. (j + 1) % size) e ∙ mod-add-mod b size 1))

-- One byte written behind those that wait.
read_ring-set_last :
    (st : List ℕ) (size at n x : ℕ)
    → 0 < size
    → size ≤ length st
    → n < size
    → read_ring (set st ((at + n) % size) x) size at (n + 1) ≡ read_ring st size at n ++ (x ∷ [])
unfolding read_ring
read_ring-set_last st size at n x hc hs h =
    read_ring-append (set st ((at + n) % size) x) size at n 1
    ∙ ap₂ (λ (p : List ℕ) (b : ℕ). p ++ (b ∷ []))
        (ap (λ j. read_ring (set st ((at + j) % size) x) size at n) (omega arith)
          ∙ read_ring-set st size at n 0 x hc (omega arith))
        (get_or-set_self st ((at + n) % size) x 0 (omega (arith, mod-lt (at + n) hc)))

-- What is written behind the bytes that wait is read behind them.
read-write_ring :
    (bytes st : List ℕ) (size at n : ℕ)
    → 0 < size
    → size ≤ length st
    → n + length bytes ≤ size
    → read_ring (write_ring st size (at + n) bytes) size at (n + length bytes)
      ≡ read_ring st size at n ++ bytes
unfolding write_ring
read-write_ring [] st size at n hc hs h =
    ap (read_ring st size at) (omega arith) ∙ sym (append-nil (read_ring st size at n))
read-write_ring (x ∷ xs) st size at n hc hs h =
    let st' : List ℕ = set st ((at + n) % size) x in
    let e : at + n + 1 ≡ at + (n + 1) = omega arith in
    let f : n + suc (length xs) ≡ n + 1 + length xs = omega arith in
    ap₂ (λ a k. read_ring (write_ring st' size a xs) size at k) e f
    ∙ read-write_ring xs st' size at (n + 1) hc (omega (arith, length-set st ((at + n) % size) x))
        (omega arith)
    ∙ ap (λ q. q ++ xs) (read_ring-set_last st size at n x hc hs (omega arith))
    ∙ append_assoc (read_ring st size at n) (x ∷ []) xs

length-write_ring :
    (bytes st : List ℕ) (size at : ℕ) → length (write_ring st size at bytes) ≡ length st
unfolding write_ring
length-write_ring [] st size at = refl
length-write_ring (x ∷ xs) st size at =
    length-write_ring xs _ size (at + 1) ∙ length-set st (at % size) x

pub new_stream-IsStream :
    (capacity : ℕ) (s : StreamBuffer) → new_stream capacity ≡ some s → IsStream s × (waiting s ≡ [])
unfolding new_stream read_ring
new_stream-IsStream capacity s e = elim (Bool-cases (leb 1 capacity && leb capacity 1024)) [
  | inl fits ↦
      subst (λ (x : StreamBuffer). IsStream x × (waiting x ≡ []))
        (some-injective _ _ (rw fits at e))
        (
          record { some_room = ground arith; in_storage = ground arith; count_in = omega arith },
          refl,
        )
  | inr no_fit ↦ absurd (none-ne-some (rw no_fit at e))
]
  where
    none-ne-some : ◌≡◌ {A = Option StreamBuffer} none (some s) → ⊥
    none-ne-some h = cc

-- A send keeps the ring within its storage.
pub send-IsStream : (s : StreamBuffer) (bytes : List ℕ) → IsStream s → IsStream (send s bytes).0
unfolding send
send-IsStream s bytes v =
    ground (arith, length-write_ring bytes s.storage s.capacity (s.head + s.count))

-- On a well-formed ring `send` is the send of the FIFO of the bytes that wait.
pub send_refines :
    (s : StreamBuffer) (bytes : List ℕ)
    → IsStream s
    → (waiting (send s bytes).0, (send s bytes).1) ≡ spec_send s.capacity (waiting s) bytes
unfolding send spec_send
send_refines s bytes v = elim (Bool-cases (ltb s.capacity (s.count + length bytes))) [
  | inl e ↦ rw (length-read_ring s.storage s.capacity s.head s.count, e) refl
  | inr e ↦
      rw (length-read_ring s.storage s.capacity s.head s.count, e)
        (ap (λ q. (q, true))
          (read-write_ring bytes s.storage s.capacity s.head s.count v.some_room v.in_storage
            (ltb→le _ _ e)))
]

pub receive-IsStream : (s : StreamBuffer) (buf : List ℕ) → IsStream s → IsStream (receive s buf).0
unfolding receive
receive-IsStream s buf v = ground arith

-- What `receive` leaves at the front of the buffer.
abbrev pub taken : List ℕ × Option ℕ → Option (List ℕ)
taken (buf, none) = none
taken (buf, some n) = some (take n buf)

-- The bytes that wait are those received next and the rest.
cut :
    (s : StreamBuffer) (n : ℕ)
    → let k = min s.count n in
      (take n (waiting s) ≡ read_ring s.storage s.capacity s.head k)
      × (drop n (waiting s) ≡ read_ring s.storage s.capacity (s.head + k) (s.count - k))
unfolding read_ring
cut s n = elim (Bool-cases (ltb s.count n)) [
  | inl more ↦
      let e : min s.count n ≡ s.count = ground arith in
      rw e (
        take_past n (waiting s)
            (omega (arith, length-read_ring s.storage s.capacity s.head s.count, ltb→lt _ _ more)),
        drop_past n (waiting s)
              (omega (arith, length-read_ring s.storage s.capacity s.head s.count, ltb→lt _ _ more))
            ∙ ap (read_ring s.storage s.capacity (s.head + s.count)) none_left,
      )
  | inr fits ↦
      let e : min s.count n ≡ n = ground arith in
      let f : s.count ≡ n + (s.count - n) = ground arith in
      let whole =
        ap (read_ring s.storage s.capacity s.head) f
        ∙ read_ring-append s.storage s.capacity s.head n (s.count - n) in
      rw e (
        ap (take n) whole ∙ take-append_of _ _ n (length-read_ring s.storage s.capacity s.head n),
        ap (drop n) whole ∙ drop-append_of _ _ n (length-read_ring s.storage s.capacity s.head n),
      )
]
  where
    none_left : 0 ≡ s.count - s.count
    none_left = omega arith

module _ (s : StreamBuffer) (buf : List ℕ) where
  abbrev k : ℕ
  k = min s.count (length buf)

  rest :
      read_ring s.storage s.capacity ((s.head + k) % s.capacity) (s.count - k)
      ≡ drop (length buf) (waiting s)
  rest = read_ring_mod s.storage s.capacity (s.head + k) (s.count - k) ∙ sym (cut s (length buf)).1

  all_of : k ≡ 0 + length (read_ring s.storage s.capacity s.head k)
  all_of = omega (arith, length-read_ring s.storage s.capacity s.head k)

  first :
      take k (copy_at buf 0 (read_ring s.storage s.capacity s.head k))
      ≡ take (length buf) (waiting s)
  first =
      ap (λ j. take j (copy_at buf 0 (read_ring s.storage s.capacity s.head k))) all_of
      ∙ take-copy_at buf 0 (read_ring s.storage s.capacity s.head k) (omega arith)
      ∙ sym (cut s (length buf)).0

  pub receive-some :
      s.count ≢ 0
      → ((receive s buf).2 ≡ some k)
        × (take k (receive s buf).1 ≡ take (length buf) (waiting s))
        × (waiting (receive s buf).0 ≡ drop (length buf) (waiting s))
  unfolding receive
  receive-some h = elim (Bool-cases (s.count == 0)) [
    | inl e ↦ absurd (h ((==_iff _ 0).0 e))
    | inr e ↦ rw e (refl, first, rest)
  ]

-- On a well-formed ring `receive` is the receive of that FIFO: the bytes stand at the front of the
-- buffer, as many as it holds or as wait.
pub receive_refines :
    (s : StreamBuffer) (buf : List ℕ)
    → IsStream s
    → (waiting (receive s buf).0, taken ((receive s buf).1, (receive s buf).2))
      ≡ spec_receive (waiting s) (length buf)
unfolding receive spec_receive
receive_refines s buf v = elim (Bool-cases (s.count == 0)) [
  | inl e ↦ rw (length-read_ring s.storage s.capacity s.head s.count, e) refl
  | inr e ↦
      rw (length-read_ring s.storage s.capacity s.head s.count, e)
        (λ i. (rest s buf i, some (first s buf i)))
]

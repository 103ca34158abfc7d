-- ===== src/Service/Table.antt =====
-- What the table of services finds and forgets.
use bristlemouth_rs.Common.{
  ℕ, suc, ◌+◌, ◌≡◌, refl, ap, subst, inl, inr, Bool, true, ◌||◌, Option, none, some, List, [], ◌∷◌,
  ◌++◌, arith, length, get_or, take, position, remove_at, ltb, ◌==◌, Bool-cases, Option-cases, ok,
}
use bristlemouth_rs.Service.{
  Service, ServiceTable, compare_from, strncmp_eq, add_service, is_named, remove_service,
}

take_all : (xs : List ℕ) → take (length xs) xs ≡ xs
take_all [] = refl
take_all (x ∷ xs) = ap (◌∷◌ x) (take_all xs)

-- A string compared with one that holds its bytes from the index on.
compare_from_same :
    (i : ℕ) (xs : List ℕ) (f : ℕ → Option ℕ)
    → ((j : ℕ) → f (i + j) ≡ some (get_or xs j 0))
    → compare_from i xs f ≡ ok true
unfolding compare_from
compare_from_same i [] f h = refl
compare_from_same i (x ∷ xs) f h =
    let here : f i ≡ some x = subst (λ k. f k ≡ some x) (omega arith) (h 0) in
    let more =
      compare_from_same (suc i) xs f
        (λ j. subst (λ k. f k ≡ some (get_or xs j 0)) (omega arith) (h (suc j))) in
    let same : (x == x) ≡ true = ground arith in rw (here, compare_from, same, more) (ground arith)

strncmp_eq_self :
    (name : List ℕ) → strncmp_eq name (length name) (λ i. some (get_or name i 0)) ≡ ok true
unfolding strncmp_eq
strncmp_eq_self name = rw (take_all name) (
    compare_from_same 0 name (λ i. some (get_or name i 0))
      (λ j. ap (λ (k : ℕ). some (get_or name k 0)) (omega arith)))

module _ {H : Type 0} where
  is_named_self :
      (name : List ℕ) (h : H) → is_named name (record { name = name; handler = h }) ≡ true
  unfolding is_named
  is_named_self name h = rw (strncmp_eq_self name, is_named) refl

  position-append :
      (p : Service H → Bool) (ss : List (Service H)) (s : Service H)
      → position p ss ≡ none
      → p s ≡ true
      → position p (ss ++ (s ∷ [])) ≡ some (length ss)
  unfolding position
  position-append p [] s e h = rw h refl
  position-append p (x ∷ xs) s e h =
      ground (arith, Option-cases (position p xs), position-append p xs s)

  remove_at-append :
      (ss : List (Service H)) (s : Service H) → remove_at (length ss) (ss ++ (s ∷ [])) ≡ ss
  unfolding remove_at
  remove_at-append [] s = refl
  remove_at-append (x ∷ xs) s = ap (◌∷◌ x) (remove_at-append xs s)

  remove_service_last :
      (t : ServiceTable H) (s : Service H) (name : List ℕ)
      → position (is_named name) t.services ≡ none
      → is_named name s ≡ true
      → remove_service (record t { services = t.services ++ (s ∷ []) }) name ≡ (t, true)
  unfolding remove_service
  remove_service_last t s name fresh hit =
      rw (position-append (is_named name) t.services s fresh hit, remove_service)
        (ap (λ (ss : List (Service H)). (record t { services = ss }, true))
          (remove_at-append t.services s))

  -- Removing a service by its name undoes its addition, where no service that was there before goes by
  -- that name.
  pub remove_service-add_service :
      (t : ServiceTable H) (name : List ℕ) (h : H)
      → position (is_named name) t.services ≡ none
      → (add_service t name h).1 ≡ true
      → remove_service (add_service t name h).0 name ≡ (t, true)
  unfolding add_service
  remove_service-add_service t name h fresh added =
      elim (Bool-cases ((length t.services == t.capacity) || ltb t.name_limit (length name))) [
        | inl full ↦ absurd (ground arith)
        | inr room ↦ rw room (remove_service_last t _ name fresh (is_named_self name h))
      ]

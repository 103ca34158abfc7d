-- ===== src/Registry/Sweep.antt =====
-- The loop of `sweep` against what becomes of each request by itself.
use bristlemouth_rs.Common.{
  ℕ, ◌+◌, ◌<◌, ◌≡◌, refl, sym, ap, ◌∙◌, inl, inr, Bool-cases, true, false, Option, none, some, List,
  [], ◌∷◌, ◌++◌, append-nil, append_assoc, ltb, if◌then◌else◌, arith, length, get_or, set,
  remove_at, length-append, lt→ltb,
}
use mathlib.Core.Path.{ap₂}
use bristlemouth_rs.Registry.{
  PendingRequest, no_request, Expiry, retry, timed_out, Registry, expired_at, packet_retry_count,
  resent, sweep_round, sweep_loop, sweep,
}

-- What stays of a request, and what is reported of it.
unfoldable pub fate : ℕ → PendingRequest → Option PendingRequest × Option Expiry
fate now_ms r =
    if expired_at r now_ms
    then if ltb r.retries packet_retry_count
      then (some (resent now_ms r), some (retry (resent now_ms r)))
      else (none, some (timed_out r))
    else (some r, none)

abbrev pub and_then {ℓ} : {A : Type ℓ} → Option A → List A → List A
and_then none xs = xs
and_then (some x) xs = x ∷ xs

unfoldable pub kept : ℕ → List PendingRequest → List PendingRequest
kept now_ms [] = []
kept now_ms (r ∷ rs) = and_then (fate now_ms r).0 (kept now_ms rs)

unfoldable pub reported : ℕ → List PendingRequest → List Expiry
reported now_ms [] = []
reported now_ms (r ∷ rs) = and_then (fate now_ms r).1 (reported now_ms rs)

module _ {ℓ} {A : Type ℓ} where
  get_or-middle :
      (xs : List A) (x : A) (ys : List A) (d : A) → get_or (xs ++ x ∷ ys) (length xs) d ≡ x
  get_or-middle [] x ys d = refl
  get_or-middle (y ∷ xs) x ys d = get_or-middle xs x ys d

  set-middle :
      (xs : List A) (x : A) (ys : List A) (v : A) → set (xs ++ x ∷ ys) (length xs) v ≡ xs ++ v ∷ ys
  set-middle [] x ys v = refl
  set-middle (y ∷ xs) x ys v = ap (◌∷◌ y) (set-middle xs x ys v)

  remove_at-middle :
      (xs : List A) (x : A) (ys : List A) → remove_at (length xs) (xs ++ x ∷ ys) ≡ xs ++ ys
  unfolding remove_at
  remove_at-middle [] x ys = refl
  remove_at-middle (y ∷ xs) x ys = ap (◌∷◌ y) (remove_at-middle xs x ys)

  shift : (xs : List A) (x : A) (ys : List A) → (xs ++ x ∷ []) ++ ys ≡ xs ++ x ∷ ys
  shift xs x ys = append_assoc xs (x ∷ []) ys

-- One round of the loop at the first request that it has not passed.
module _ (now_ms : ℕ) (done : List PendingRequest) (r : PendingRequest) (rest : List PendingRequest)
    (reports : List Expiry) where
  here : get_or (done ++ r ∷ rest) (length done) no_request ≡ r
  here = get_or-middle done r rest no_request

  round_passes :
      expired_at r now_ms ≡ false
      → sweep_round now_ms (length done) (done ++ r ∷ rest) reports
        ≡ (length done + 1, done ++ r ∷ rest, reports)
  unfolding sweep_round
  round_passes e = rw (here, e) refl

  round_resends :
      expired_at r now_ms ≡ true
      → ltb r.retries packet_retry_count ≡ true
      → sweep_round now_ms (length done) (done ++ r ∷ rest) reports
        ≡ (length done + 1, done ++ resent now_ms r ∷ rest, reports ++ retry (resent now_ms r) ∷ [])
  unfolding sweep_round
  round_resends e t =
      rw (here, e, t)
        (ap (λ p. (length done + 1, p, reports ++ retry (resent now_ms r) ∷ []))
          (set-middle done r rest (resent now_ms r)))

  round_removes :
      expired_at r now_ms ≡ true
      → ltb r.retries packet_retry_count ≡ false
      → sweep_round now_ms (length done) (done ++ r ∷ rest) reports
        ≡ (length done, done ++ rest, reports ++ timed_out r ∷ [])
  unfolding sweep_round
  round_removes e t =
      rw (here, e, t)
        (ap (λ p. (length done, p, reports ++ timed_out r ∷ [])) (remove_at-middle done r rest))

  -- The loop behind a request that stays.
  passed :
      (out : List PendingRequest × List Expiry)
      → sweep_loop (length rest) now_ms (length (done ++ r ∷ [])) ((done ++ r ∷ []) ++ rest) reports
        ≡ out
      → sweep_loop (length rest) now_ms (length done + 1) (done ++ r ∷ rest) reports ≡ out
  passed out ih =
      let n : length done + 1 ≡ length (done ++ r ∷ []) = sym (length-append done (r ∷ [])) in
      ap₂ (λ i p. sweep_loop (length rest) now_ms i p reports) n (sym (shift done r rest)) ∙ ih

-- The loop passes over `rest`, with `done` behind it.
loop-fates :
    (now_ms : ℕ) (rest done : List PendingRequest) (reports : List Expiry)
    → sweep_loop (length rest) now_ms (length done) (done ++ rest) reports
      ≡ (done ++ kept now_ms rest, reports ++ reported now_ms rest)
unfolding sweep_loop kept reported fate
loop-fates now_ms [] done reports = ap₂ (λ a b. (a, b)) refl (sym (append-nil reports))
loop-fates now_ms (r ∷ rest) done reports =
    let more : length done < length (done ++ r ∷ rest) =
      omega (arith, length-append done (r ∷ rest)) in
    rw (lt→ltb (length done) (length (done ++ r ∷ rest)) more)
      (elim (Bool-cases (expired_at r now_ms)) [
        | inr live ↦
            rw (round_passes now_ms done r rest reports live, live)
              (passed now_ms done r rest reports _ (loop-fates now_ms rest (done ++ r ∷ []) reports)
                ∙ ap (λ p. (p, reports ++ reported now_ms rest)) (shift done r (kept now_ms rest)))
        | inl old ↦ elim (Bool-cases (ltb r.retries packet_retry_count)) [
          | inl again ↦
              let x = resent now_ms r in
              rw (round_resends now_ms done r rest reports old again, old, again)
                (passed now_ms done x rest (reports ++ retry x ∷ []) _
                    (loop-fates now_ms rest (done ++ x ∷ []) (reports ++ retry x ∷ []))
                  ∙ ap₂ (λ p q. (p, q)) (shift done x (kept now_ms rest))
                      (shift reports (retry x) (reported now_ms rest)))
          | inr gone ↦
              rw (round_removes now_ms done r rest reports old gone, old, gone)
                (loop-fates now_ms rest done (reports ++ timed_out r ∷ [])
                  ∙ ap (λ q. (done ++ kept now_ms rest, q))
                      (shift reports (timed_out r) (reported now_ms rest)))
        ]
      ])

pub sweep-fates :
    (g : Registry) (now_ms : ℕ)
    → sweep g now_ms ≡ (record g { pending = kept now_ms g.pending }, reported now_ms g.pending)
unfolding sweep
sweep-fates g now_ms =
    ap (λ (p : List PendingRequest × List Expiry). (record g { pending = p.0 }, p.1))
      (loop-fates now_ms g.pending [] [])

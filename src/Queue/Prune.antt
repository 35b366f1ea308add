-- ===== src/Queue/Prune.antt =====
-- `Prune`.
use cpp_gossip.Base.{
  ℕ, zero, suc, ◌+◌, ◌-◌, ◌≤◌, ◌≡◌, refl, sym, ap, ◌∙◌, List, [], ◌∷◌, arith, length, take,
  take_of_length-le,
}
use native.Mathlib.Decide.{dec_le}
use cpp_gossip.Queue.Order.{LimitedBroadcast}
use cpp_gossip.Queue.{BroadcastQueue, drop_last, prune_last, prune_loop, prune, size}

drop_last-take :
    (x : LimitedBroadcast) (xs : List LimitedBroadcast)
    → drop_last (x ∷ xs) ≡ take (length xs) (x ∷ xs)
unfolding drop_last
drop_last-take x [] = refl
drop_last-take x (y ∷ ys) = rw (drop_last-take y ys)

take-take : (n m : ℕ) (xs : List LimitedBroadcast) → n ≤ m → take n (take m xs) ≡ take n xs
take-take zero m xs h = refl
take-take (suc n) zero xs h = absurd (omega arith)
take-take (suc n) (suc m) [] h = refl
take-take (suc n) (suc m) (x ∷ xs) h = rw (take-take n m xs (omega arith))

prune_last-take :
    (q : BroadcastQueue) (n : ℕ) → size q ≡ suc n → (prune_last q q.tq).tq ≡ take n q.tq
prune_last-take q n e = go q.tq e
  where
    go : (xs : List LimitedBroadcast) → length xs ≡ suc n → (prune_last q xs).tq ≡ take n xs
    go [] e = absurd (omega arith)
    go (x ∷ xs) e =
        drop_last-take x xs ∙ ap (λ k. take k (x ∷ xs)) (let k : length xs ≡ n = omega arith in k)

length-take : (n : ℕ) (xs : List LimitedBroadcast) → n ≤ length xs → length (take n xs) ≡ n
length-take zero xs h = refl
length-take (suc n) [] h = absurd (omega arith)
length-take (suc n) (x ∷ xs) h = omega (arith, length-take n xs (omega arith))

prune_loop-take :
    (excess n : ℕ) (q : BroadcastQueue)
    → size q ≡ excess + n
    → (prune_loop excess q).tq ≡ take n q.tq
unfolding prune_loop
prune_loop-take zero n q e = sym (take_of_length-le n q.tq (omega arith))
prune_loop-take (suc excess) n q e =
    let last : size q ≡ suc (excess + n) = omega arith in
    let shorter = prune_last-take q (excess + n) last in
    let left : size (prune_last q q.tq) ≡ excess + n =
      ap length shorter ∙ length-take (excess + n) q.tq (omega arith) in
    prune_loop-take excess n (prune_last q q.tq) left
    ∙ ap (take n) shorter
    ∙ take-take n (excess + n) q.tq (omega arith)

prune_loop-whole : (n : ℕ) (q : BroadcastQueue) → size q ≤ n → (prune_loop 0 q).tq ≡ take n q.tq
unfolding prune_loop
prune_loop-whole n q h = sym (take_of_length-le n q.tq h)

-- `Prune` keeps the first `max_retain` elements of the order, those transmitted least, and drops the
-- rest; a shorter queue stays as it is.
pub prune-take :
    (max_retain : ℕ) (q : BroadcastQueue) → (prune max_retain q).tq ≡ take max_retain q.tq
unfolding prune
prune-take max_retain q = elim (dec_le max_retain (size q)) [
  | yes more ↦ prune_loop-take (size q - max_retain) max_retain q (omega arith)
  | no fewer ↦
      let none_over : size q - max_retain ≡ 0 = omega arith in
      rw none_over (prune_loop-whole max_retain q (omega arith))
]

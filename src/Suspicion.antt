-- ===== src/Suspicion.antt =====
-- src/misc/suspicion.cpp: the timer of a suspected node, which confirmations by other nodes shorten.
-- `node` and `suspected_at` are what the callback `f` of `suspectNode` captures.
pub mod Laws
use cpp_gossip.Base.{
  ℕ, ◌+◌, ◌*◌, ◌%◌, String, Bool, true, false, List, [], ◌∷◌, any, same, ltb, if◌then◌else◌,
  u32_mod,
}
use cpp_gossip.Base.Int.{ℤ, pos, pos_part, neg_part, sub_ℕ, ◌-ℤ◌, ltb_ℤ}
use cpp_gossip.Double.{Double}
use cpp_gossip.Timer.{Timer, new_timer, run, stop, restart}

pub record Suspicion : Type 0 where
  pub n : ℕ
  pub k : ℕ
  pub start : ℕ
  pub min : ℤ
  pub max : ℤ
  pub confirmations : List String
  pub timer : Timer
  pub node : String
  pub suspected_at : ℕ

-- The constructor. `node` and `at` belong to the callback.
unfoldable pub new_suspicion : String → ℕ → ℤ → ℤ → ℕ → String → ℕ → Suspicion
new_suspicion from k min max now node at = record {
  n = 0;
  k = k;
  start = now;
  min = min;
  max = max;
  confirmations = from ∷ [];
  timer = run (new_timer (pos_part (if ltb k 1 then min else max)) true false);
  node = node;
  suspected_at = at;
}

abbrev pub has_confirmed : String → Suspicion → Bool
has_confirmed from s = any (λ c. same c from) s.confirmations

-- How `Confirm` ends: `fires` is the call `f()` in the confirming thread itself.
pub data Verdict : Type 0 where
  refused accepted fires : Verdict

-- The bookkeeping of an accepted confirmation, and the decision about the timer. `confirmations` is a
-- set: an insertion of what it has changes nothing.
unfoldable pub note_confirmation : String → Suspicion → Suspicion
note_confirmation from s = record s {
  confirmations = if has_confirmed from s then s.confirmations else from ∷ s.confirmations;
  n = (s.n + 1) % u32_mod;
}

unfoldable pub reschedule : ℤ → Suspicion → Suspicion × Verdict
reschedule remain s =
    let (t, stopped) = stop s.timer in
    if stopped
    then (if ltb_ℤ (pos 0) remain
        then (record s { timer = restart (pos_part remain) t }, accepted)
        else (record s { timer = t }, fires))
    else (record s { timer = t }, accepted)

-- A product of an `int64_t` with a number.
abbrev pub scale_ℤ : ℕ → ℤ → ℤ
scale_ℤ a z = sub_ℕ (a * pos_part z) (a * neg_part z)

module _ (d : Double) where
  open d use {of_ℤ, log, log10, fmax, add, sub, mul, div, to_int64}

  -- `remainingSuspicionTime`
  unfoldable pub remaining : ℕ → Suspicion → ℤ
  remaining now s =
      let frac =
        div (log (of_ℤ (pos ((s.n + 1) % u32_mod)))) (log (of_ℤ (pos ((s.k + 1) % u32_mod)))) in
      let timeout = to_int64 (sub (of_ℤ s.max) (mul frac (of_ℤ (s.max -ℤ s.min)))) in
      timeout -ℤ sub_ℕ now s.start

  -- `Confirm`
  unfoldable pub confirm : ℕ → String → Suspicion → Suspicion × Verdict
  confirm now from s =
      if ltb s.k s.n
      then (s, refused)
      else if has_confirmed from s
      then (s, refused)
      else (let s' = note_confirmation from s in reschedule (remaining now s') s')

  -- `suspicionTimeout` of src/misc/util.cpp
  unfoldable pub suspicion_timeout : ℕ → ℕ → ℕ → ℤ
  suspicion_timeout mult n interval =
      let node_scale = fmax (of_ℤ (pos 1)) (log10 (add (of_ℤ (pos 1)) (of_ℤ (pos n)))) in
      to_int64 (mul (mul (of_ℤ (pos mult)) node_scale) (of_ℤ (pos interval)))

-- ===== src/Base/Maps.antt =====
-- `std::map` as a partial function of its key (the program never walks one), and the store of
-- shared objects as a function of the address.
use Prim.Native.Nat.{ℕ}
use mathlib.Core.Path.{◌≡◌, fun_ext}
use mathlib.Core.Logic.{ite}
use mathlib.Core.Option.{Option, none, some}
use native.Mathlib.Decide.{ℕ_discrete}
use native.Mathlib.Omega.{arith}

abbrev pub Map {ℓ κ} : Type ℓ → Type κ → Type (ℓ ⊔ κ)
Map K V = K → Option V

abbrev pub empty_map {ℓ κ} : {K : Type ℓ} {V : Type κ} → Map K V
empty_map k = none

module _ {ℓ κ} {K : Type ℓ} {V : Type κ} (dec : Discrete K) where
  -- `m[k] = v`
  unfoldable pub insert : K → V → Map K V → Map K V
  insert k v m j = ite (dec j k) (some v) (m j)

  -- `m.erase(k)`
  unfoldable pub erase : K → Map K V → Map K V
  erase k m j = ite (dec j k) none (m j)

  pub erase_absent : (k : K) (m : Map K V) → m k ≡ none → erase k m ≡ m
  unfolding erase
  erase_absent k m h = fun_ext (λ j. absent j)
    where
      absent : (j : K) → erase k m j ≡ m j
      absent j = elim (dec j k) [ yes p ↦ ground arith | no p ↦ ground arith ]

  pub erase-erase : (k : K) (m : Map K V) → erase k (erase k m) ≡ erase k m
  unfolding erase
  erase-erase k m = fun_ext (λ j. ground arith)

module _ {ℓ} {A : Type ℓ} where
  -- A write through a pointer.
  unfoldable pub store : ℕ → A → (ℕ → A) → ℕ → A
  store p a cell q = ite (ℕ_discrete q p) a (cell q)

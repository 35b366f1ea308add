-- ===== src/Double.antt =====
-- The C++ type `double` with `<cmath>`: code that the program calls and does not define. An
-- implementation is a parameter of the definitions that use it.
use Prim.Native.Nat.{ℕ}
use cpp_gossip.Base.Int.{ℤ}

pub record Double : Type 1 where
  pub F : Type 0
  pub of_ℤ : ℤ → F
  pub log : F → F
  pub log10 : F → F
  pub log2 : F → F
  pub ceil : F → F
  pub fmax : F → F → F
  pub add : F → F → F
  pub sub : F → F → F
  pub mul : F → F → F
  pub div : F → F → F
  -- The conversions to `int64_t` and to `uint32_t`.
  pub to_int64 : F → ℤ
  pub to_uint32 : F → ℕ

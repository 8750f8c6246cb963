-- ===== src/Prelude/Arrays.antt =====
-- C arrays and byte memory as functions of the index, with a write at one place.
use Prim.Native.Nat.{ℕ}
use mathlib.Core.Path.{◌≡◌}
use mathlib.Core.Logic.{◌≢◌}
use native.Mathlib.Omega.{arith}
use deva.Prelude.Tests.{◌==◌, if◌then◌else◌}

-- `a[i] = v`.
abbrev pub update {ℓ} : {A : Type ℓ} → (ℕ → A) → ℕ → A → ℕ → A
update f i v j = if i == j then v else f j

pub update_self {ℓ} : {A : Type ℓ} (f : ℕ → A) (i : ℕ) (v : A) → update f i v i ≡ v
update_self f i v = ground arith

pub update_ne {ℓ} : {A : Type ℓ} (f : ℕ → A) (i j : ℕ) (v : A) → i ≢ j → update f i v j ≡ f j
update_ne f i j v h = ground arith

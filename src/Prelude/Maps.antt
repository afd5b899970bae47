-- ===== src/Prelude/Maps.antt =====
-- Total maps on numbers, updated at one point: memories, disks, tables.
use Prim.Native.Nat.{ℕ}
use mathlib.Core.Path.{◌≡◌}
use mathlib.Core.Logic.{◌≢◌}
use native.Mathlib.Omega.{arith}
use ntu_sc2005_xv.Prelude.Tests.{◌==◌, if◌then◌else◌}

abbrev pub update {ℓ} : {A : Type ℓ} → (ℕ → A) → ℕ → A → ℕ → A
update m a v b = if a == b then v else m b

module _ {ℓ} {A : Type ℓ} where
  pub update_self : (m : ℕ → A) (a : ℕ) (v : A) → update m a v a ≡ v
  update_self m a v = ground arith

  pub update_ne : (m : ℕ → A) (a b : ℕ) (v : A) → a ≢ b → update m a v b ≡ m b
  update_ne m a b v h = ground arith

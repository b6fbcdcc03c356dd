-- ===== src/Base/Family.antt =====
-- Families indexed by numbers: the update of one member, and sums over the first ones.
use Prim.Native.Nat.{ℕ, zero, suc, ◌+◌, ◌≤◌, ◌<◌}
use mathlib.Core.Path.{◌≡◌, refl}
use mathlib.Core.Logic.{◌≢◌, ◌⊎◌, inl, inr}
use native.Mathlib.Omega.{arith}
use go_moa.Base.Tests.{◌==◌, ==_iff, Bool-cases, if◌then◌else◌}

abbrev pub update {ℓ} : {A : Type ℓ} → ℕ → A → (ℕ → A) → ℕ → A
update i a f j = if i == j then a else f j

module _ {ℓ} {A : Type ℓ} where
  pub update_self : (i : ℕ) (a : A) (f : ℕ → A) → update i a f i ≡ a
  update_self i a f = rw ((==_iff i i).1 refl) refl

  pub update_other : (i j : ℕ) (a : A) (f : ℕ → A) → i ≢ j → update i a f j ≡ f j
  update_other i j a f n = elim (Bool-cases (i == j)) [
    | inl e ↦ absurd (n ((==_iff i j).0 e))
    | inr e ↦ rw e refl
  ]

pub lt_or_ge : (i n : ℕ) → (i < n) ⊎ (n ≤ i)
lt_or_ge zero zero = inr (omega arith)
lt_or_ge zero (suc n) = inl (omega arith)
lt_or_ge (suc i) zero = inr (omega arith)
lt_or_ge (suc i) (suc n) = elim (lt_or_ge i n) [
  | inl h ↦ inl (omega arith)
  | inr h ↦ inr (omega arith)
]

module _ {ℓ} {A : Type ℓ} (w : A → ℕ) where
  -- The sum of the weights of the first `n` members.
  unfoldable pub total : ℕ → (ℕ → A) → ℕ
  total zero f = 0
  total (suc n) f = total n f + w (f n)

  total-update_above : (n i : ℕ) (a : A) (f : ℕ → A) → n ≤ i → total n (update i a f) ≡ total n f
  unfolding total
  total-update_above zero i a f h = refl
  total-update_above (suc n) i a f h = ground (arith, total-update_above n i a f)

  pub total-update :
      (n i : ℕ) (a : A) (f : ℕ → A) → i < n → total n (update i a f) + w (f i) ≡ total n f + w a
  unfolding total
  total-update zero i a f h = absurd (omega arith)
  total-update (suc n) i a f h = elim (lt_or_ge i n) [
    | inl below ↦ ground (arith, total-update n i a f below)
    | inr last ↦ ground (arith, total-update_above n i a f)
  ]

  pub total_zero : (n : ℕ) (f : ℕ → A) → ((i : ℕ) → w (f i) ≡ 0) → total n f ≡ 0
  unfolding total
  total_zero zero f h = refl
  total_zero (suc n) f h = omega (arith, total_zero n f h, h n)

pub total_same {ℓ} :
    {A : Type ℓ} (v w : A → ℕ) (n : ℕ) (f g : ℕ → A)
    → ((i : ℕ) → i < n → v (f i) ≡ w (g i))
    → total v n f ≡ total w n g
unfolding total
total_same v w zero f g h = refl
total_same v w (suc n) f g h =
    omega (arith, total_same v w n f g (λ i l. h i (omega arith)), h n (omega arith))

-- ===== src/Engine/Retry/Backoff.antt =====
-- The delays before retries, as core/engine/retry.go computes them.
use workflow_execution_engin.Prelude.{
  ℕ, zero, suc, ◌+◌, ◌*◌, ◌^◌, ◌≤◌, ◌<◌, ◌≡◌, sym, ap, ◌∙◌, inl, inr, true, arith, Bool-cases, pos,
  ◌+ℤ◌, leb_ℤ, wrap64,
}
use Prim.Native.Nat.{min}
use native.Mathlib.Nat.{pow-suc, pow-zero, min-eq_right}
use workflow_execution_engin.Engine.Retry.{double_until, exponential_backoff}

-- Within the range of int64 a doubling does not wrap.
double_exact : (d : ℕ) → d + d < 9223372036854775808 → wrap64 (pos d +ℤ pos d) ≡ pos (d + d)
unfolding wrap64 ◌+ℤ◌
double_exact d h = ground arith

pow_pos : (n : ℕ) → 1 ≤ 2 ^ n
pow_pos zero = rw pow-zero (omega arith)
pow_pos (suc n) = rw pow-suc (omega (arith, pow_pos n))

le_mul_pos : (a k : ℕ) → 1 ≤ k → a ≤ a * k
le_mul_pos a zero h = absurd (omega arith)
le_mul_pos a (suc k) h = omega arith

double_until-eq :
    (rounds d max : ℕ)
    → d ≤ max
    → max < 4611686018427387904
    → double_until rounds (pos d) (pos max) ≡ pos (min (d * 2 ^ rounds) max)
unfolding double_until
double_until-eq zero d max h m = rw pow-zero (ap pos (omega arith))
double_until-eq (suc r) d max h m =
    rw (double_exact d (omega arith)) (elim (Bool-cases (leb_ℤ (pos max) (pos (d + d)))) [
      | inl reached ↦ rw reached (ap pos (sym (min-eq_right (capped reached))))
      | inr below ↦
          rw below
            (double_until-eq r (d + d) max (ground arith) m ∙ ap (λ k. pos (min k max)) regroup)
    ])
  where
    regroup : (d + d) * 2 ^ r ≡ d * 2 ^ suc r
    regroup = rw pow-suc (grind arith)

    capped : leb_ℤ (pos max) (pos (d + d)) ≡ true → max ≤ d * 2 ^ suc r
    capped e = rw (← regroup) (ground (arith, le_mul_pos (d + d) (2 ^ r) (pow_pos r)))

-- Where the base delay does not pass the cap, and the cap stays below 2^62 ns, the delay before
-- retry n + 1 is base * 2^n, capped.
pub exponential_backoff-eq :
    (base max n : ℕ)
    → 0 < base
    → base ≤ max
    → max < 4611686018427387904
    → exponential_backoff (pos base) (pos max) (suc n) ≡ pos (min (base * 2 ^ n) max)
unfolding exponential_backoff
exponential_backoff-eq base max n p h m = ground (arith, double_until-eq n base max h m)

-- Where the base delay passes the cap, and stays below 2^62 ns, only the first retry waits for longer
-- than the cap: it waits for the base delay in full, and every later retry for the cap.
pub exponential_backoff_uncapped :
    (base max : ℕ)
    → max < base
    → base < 4611686018427387904
    → (exponential_backoff (pos base) (pos max) 1 ≡ pos base)
      × ((n : ℕ) → exponential_backoff (pos base) (pos max) (suc (suc n)) ≡ pos max)
unfolding exponential_backoff double_until
exponential_backoff_uncapped base max h m =
    (ground arith, λ n. ground (arith, double_exact base (omega arith)))

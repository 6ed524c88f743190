-- ===== src/Repository/Keys/Digits.antt =====
-- The decimal digits of numbers.
use native.Mathlib.Nat.{
  div-add-mod, mod-lt, mul-add-mod_self_left, mod-eq_of_lt, pow-suc, mul_assoc, mul-le-mul_left,
  mul-add, one-le-pow, mod-one,
}
use svc_downloader.Common.{
  ℕ, zero, suc, ◌+◌, ◌*◌, ◌/◌, ◌%◌, ◌^◌, ◌<◌, ◌≤◌, ◌≡◌, sym, ap, subst, ◌∙◌, arith, inl, inr,
  Bool-cases, ltb,
}
use svc_downloader.Common.Lists.{length}
use svc_downloader.Common.Int.{pos}
use svc_downloader.Repository.Keys.{digits, padded, width}

pub power_positive : (k : ℕ) → 0 < 10 ^ k
power_positive k = one-le-pow k 10 (omega arith)

-- The remainder by p * 10, in its leading digit and the rest.
split_mod : (n p : ℕ) → 0 < p → n % (p * 10) ≡ p * (n / p % 10) + n % p
split_mod n p h =
    let q = n / p in
    let spread : p * q ≡ p * 10 * (q / 10) + p * (q % 10) =
      ap (λ x. p * x) (sym (div-add-mod q 10))
      ∙ mul-add p (10 * (q / 10)) (q % 10)
      ∙ ap (λ x. x + p * (q % 10)) (sym (mul_assoc p 10 (q / 10))) in
    let whole : n ≡ p * 10 * (q / 10) + (p * (q % 10) + n % p) =
      omega (arith, div-add-mod n p, spread) in
    let small : p * (q % 10) + n % p < p * 10 =
      omega (arith, mul-le-mul_left {m = q % 10} {n = 9} p (omega arith), mod-lt n h) in
    ap (λ x. x % (p * 10)) whole
    ∙ mul-add-mod_self_left (p * 10) (q / 10) (p * (q % 10) + n % p)
    ∙ mod-eq_of_lt small

-- The last k + 1 digits, in the first of them and the rest.
pub last_digits : (n k : ℕ) → n % 10 ^ suc k ≡ 10 ^ k * (n / 10 ^ k % 10) + n % 10 ^ k
last_digits n k = ap (λ x. n % x) (pow-suc 10 k) ∙ split_mod n (10 ^ k) (power_positive k)

-- The number of digits that "%09d" writes for a number below 10 ^ 9.
width_bound : (fuel n k : ℕ) → n < 10 ^ suc k → width fuel n ≤ suc k
unfolding width
width_bound zero n k h = omega arith
width_bound (suc fuel) n zero h = ground arith
width_bound (suc fuel) n (suc k) h =
    ground (arith, width_bound fuel (n / 10) k (omega (arith, pow-suc 10 (suc k))))

pub padded-small : (n : ℕ) → n < 10 ^ 9 → padded 9 (pos n) ≡ digits 9 n
unfolding padded
padded-small n h = ground (arith, width_bound n n 8 h)

length-digits : (k n : ℕ) → length (digits k n) ≡ k
unfolding digits
length-digits zero n = omega arith
length-digits (suc k) n = omega (arith, length-digits k n)

-- The last digits determine the remainder.
pub digits_inj : (k i j : ℕ) → digits k i ≡ digits k j → i % 10 ^ k ≡ j % 10 ^ k
unfolding digits
digits_inj zero i j h = mod-one i ∙ sym (mod-one j)
digits_inj (suc k) i j h =
    let front : i / 10 ^ k % 10 ≡ j / 10 ^ k % 10 = ground (arith, h) in
    let rest : digits k i ≡ digits k j = cc in
    omega
      (arith, last_digits i k, last_digits j k, ap (λ x. 10 ^ k * x) front, digits_inj k i j rest)

below_width : (fuel n : ℕ) → n ≤ fuel → n < 10 ^ width fuel n
unfolding width
below_width zero n h = omega arith
below_width (suc fuel) n h = elim (Bool-cases (ltb n 10)) [
  | inl small ↦ rw small (ground arith)
  | inr big ↦
      let rest = below_width fuel (n / 10) (ground arith) in
      rw big (omega (arith, pow-suc 10 (width fuel (n / 10)), rest))
]

pub decimal : (n : ℕ) → padded 0 (pos n) ≡ digits (width n n) n
unfolding padded
decimal n = ground arith

-- "%d" writes different numbers differently.
pub decimal_inj : (i j : ℕ) → padded 0 (pos i) ≡ padded 0 (pos j) → i ≡ j
decimal_inj i j h =
    let e : digits (width i i) i ≡ digits (width j j) j = sym (decimal i) ∙ h ∙ decimal j in
    let same_width : width i i ≡ width j j =
      sym (length-digits (width i i) i) ∙ ap length e ∙ length-digits (width j j) j in
    let w = width j j in
    let small : i < 10 ^ w = subst (λ k. i < 10 ^ k) same_width (below_width i i (omega arith)) in
    sym (mod-eq_of_lt small)
    ∙ digits_inj w i j (subst (λ k. digits k i ≡ digits w j) same_width e)
    ∙ mod-eq_of_lt (below_width j j (omega arith))

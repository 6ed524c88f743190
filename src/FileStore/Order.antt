-- ===== src/FileStore/Order.antt =====
-- The order of texts, and of the names of part files.
use mathlib.Core.List.{Permᴰ}
use native.Mathlib.Nat.{mod-lt, mod-eq_of_lt, mul-le-mul_left, mul-add, mod-one}
use svc_downloader.Common.{
  ℕ, zero, suc, ◌+◌, ◌*◌, ◌/◌, ◌%◌, ◌^◌, ◌<◌, ◌≤◌, ◌≡◌, refl, ap, ◌∙◌, true, false, List, [], ◌∷◌,
  ◌++◌, inl, inr, arith, Bool-cases, ltb, ◌==◌,
}
use svc_downloader.Common.Bytes.{Bytes, codes}
use svc_downloader.Common.Int.{pos}
use svc_downloader.Repository.Keys.{digits}
use svc_downloader.Repository.Keys.Digits.{last_digits, power_positive, padded-small}
use svc_downloader.FileStore.{part_name}
use svc_downloader.FileStore.Parts.{text_leb, insert_text, sort_texts}

text_leb_total : (s t : Bytes) → text_leb s t ≡ false → text_leb t s ≡ true
unfolding text_leb
text_leb_total [] t h = cc
text_leb_total (a ∷ s) [] h = refl
text_leb_total (a ∷ s) (b ∷ t) h = ground (arith, text_leb_total s t)

text_leb_antisymm : (s t : Bytes) → text_leb s t ≡ true → text_leb t s ≡ true → s ≡ t
unfolding text_leb
text_leb_antisymm [] [] h k = refl
text_leb_antisymm [] (b ∷ t) h k = cc
text_leb_antisymm (a ∷ s) [] h k = cc
text_leb_antisymm (a ∷ s) (b ∷ t) h k = ground (arith, text_leb_antisymm s t)

text_leb_trans : (s t u : Bytes) → text_leb s t ≡ true → text_leb t u ≡ true → text_leb s u ≡ true
unfolding text_leb
text_leb_trans [] t u h k = refl
text_leb_trans (a ∷ s) [] u h k = cc
text_leb_trans (a ∷ s) (b ∷ t) [] h k = cc
text_leb_trans (a ∷ s) (b ∷ t) (c ∷ u) h k = ground (arith, text_leb_trans s t u)

insert_text-swap :
    (s t : Bytes) (us : List Bytes)
    → insert_text s (insert_text t us) ≡ insert_text t (insert_text s us)
unfolding insert_text
insert_text-swap s t [] = ground (arith, text_leb_total s t, text_leb_antisymm s t)
insert_text-swap s t (u ∷ us) = ground (
  arith,
  text_leb_total s t,
  text_leb_antisymm s t,
  text_leb_total t s,
  text_leb_total s u,
  text_leb_total t u,
  text_leb_trans s t u,
  text_leb_trans t s u,
  insert_text-swap s t us,
)

-- Sorting gives the same for all orders of a list.
pub sort_texts-Permᴰ : {ss ts : List Bytes} → Permᴰ ss ts → sort_texts ss ≡ sort_texts ts
unfolding sort_texts
sort_texts-Permᴰ Permᴰ.nil = refl
sort_texts-Permᴰ (Permᴰ.cons e p) = rw (e, sort_texts-Permᴰ p)
sort_texts-Permᴰ (Permᴰ.swap {a = a} {b = b} {l = l} e f) =
    rw (← e, ← f) (insert_text-swap a b (sort_texts l))
sort_texts-Permᴰ (Permᴰ.trans p q) = sort_texts-Permᴰ p ∙ sort_texts-Permᴰ q

-- Numbers in their last digits, compared as texts.
digits-text_leb :
    (k i j : ℕ) (s t : Bytes)
    → i % 10 ^ k < j % 10 ^ k
    → text_leb (digits k i ++ s) (digits k j ++ t) ≡ true
unfolding digits text_leb
digits-text_leb zero i j s t h = absurd (omega (arith, h, mod-one i, mod-one j))
digits-text_leb (suc k) i j s t h =
    let p = 10 ^ k in
    let positive = power_positive k in
    let front = i / p % 10 in
    let front' = j / p % 10 in
    let less : p * front + i % p < p * front' + j % p =
      omega (arith, last_digits i k, last_digits j k, h) in
    elim (Bool-cases (ltb front front')) [
      | inl lt ↦ ground arith
      | inr ge ↦ elim (Bool-cases (front == front')) [
        | inl eq ↦
            let e : front ≡ front' = ground arith in
            ground (arith, digits-text_leb k i j s t (omega (arith, ap (λ x. p * x) e, less)))
        | inr ne ↦
            let more : p * (front' + 1) ≤ p * front = mul-le-mul_left p (ground arith) in
            absurd
              (omega (arith, more, mul-add p front' 1, less, mod-lt i positive, mod-lt j positive))
      ]
    ]

-- The names of two parts with at most nine digits.
pub part_name-text_leb :
    (i j : ℕ) → i < j → j < 10 ^ 9 → text_leb (part_name (pos i)) (part_name (pos j)) ≡ true
unfolding part_name
part_name-text_leb i j h small =
    rw (padded-small i (omega arith), padded-small j small)
      (digits-text_leb 9 i j (codes ".part") (codes ".part") (omega (arith, mod-eq_of_lt small)))

-- The names of the parts i, i + 1, ..., i + k - 1.
abbrev pub part_names_from : ℕ → ℕ → List Bytes
part_names_from i zero = []
part_names_from i (suc k) = part_name (pos i) ∷ part_names_from (suc i) k

insert_first :
    (i k : ℕ)
    → suc i + k ≤ 10 ^ 9
    → insert_text (part_name (pos i)) (part_names_from (suc i) k) ≡ part_names_from i (suc k)
unfolding insert_text
insert_first i zero h = refl
insert_first i (suc k) h = rw (part_name-text_leb i (suc i) (omega arith) (omega arith)) refl

-- They are in order.
pub sort_texts-part_names :
    (i k : ℕ) → i + k ≤ 10 ^ 9 → sort_texts (part_names_from i k) ≡ part_names_from i k
unfolding sort_texts
sort_texts-part_names i zero h = refl
sort_texts-part_names i (suc k) h =
    rw (sort_texts-part_names (suc i) k (omega arith)) (insert_first i k (omega arith))

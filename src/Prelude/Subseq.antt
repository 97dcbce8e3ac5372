-- ===== src/Prelude/Subseq.antt =====
-- Lists that can be had from others by leaving items out.
use mathlib.Core.List.{List, [], ◌∷◌, ◌++◌}

-- `xs` can be had from `ys` by leaving items out.
pub data Subseq {ℓ} {A : Type ℓ} : List A → List A → Type ℓ where
  done : Subseq [] []
  skip : {xs ys : List A} (y : A) → Subseq xs ys → Subseq xs (y ∷ ys)
  keep : {xs ys : List A} (x : A) → Subseq xs ys → Subseq (x ∷ xs) (x ∷ ys)

module _ {ℓ} {A : Type ℓ} where
  pub nil-Subseq : (ys : List A) → Subseq [] ys
  nil-Subseq [] = done
  nil-Subseq (y ∷ ys) = skip y (nil-Subseq ys)

  pub Subseq-more : {xs ys : List A} (y : A) → Subseq xs ys → Subseq xs (ys ++ y ∷ [])
  Subseq-more y done = skip y done
  Subseq-more y (skip z h) = skip z (Subseq-more y h)
  Subseq-more y (keep z h) = keep z (Subseq-more y h)

  pub Subseq-snoc : {xs ys : List A} (y : A) → Subseq xs ys → Subseq (xs ++ y ∷ []) (ys ++ y ∷ [])
  Subseq-snoc y done = keep y done
  Subseq-snoc y (skip z h) = skip z (Subseq-snoc y h)
  Subseq-snoc y (keep z h) = keep z (Subseq-snoc y h)

  pub Subseq-trans : {ys zs : List A} → Subseq ys zs → {xs : List A} → Subseq xs ys → Subseq xs zs
  Subseq-trans done h = h
  Subseq-trans (skip y k) h = skip y (Subseq-trans k h)
  Subseq-trans (keep x k) (skip _ h) = skip x (Subseq-trans k h)
  Subseq-trans (keep x k) (keep _ h) = keep x (Subseq-trans k h)

  pub Subseq-both :
      {ws xs ys zs : List A} → Subseq ws xs → Subseq ys zs → Subseq (ws ++ ys) (xs ++ zs)
  Subseq-both done k = k
  Subseq-both (skip y h) k = skip y (Subseq-both h k)
  Subseq-both (keep x h) k = keep x (Subseq-both h k)

  pub Subseq-refl : (xs : List A) → Subseq xs xs
  Subseq-refl [] = done
  Subseq-refl (x ∷ xs) = keep x (Subseq-refl xs)

  pub Subseq-append : (xs ys : List A) → Subseq xs (xs ++ ys)
  Subseq-append [] ys = nil-Subseq ys
  Subseq-append (x ∷ xs) ys = keep x (Subseq-append xs ys)

  -- The last items left out.
  pub Subseq-prefix : (xs ys : List A) {zs : List A} → Subseq (xs ++ ys) zs → Subseq xs zs
  Subseq-prefix xs ys h = Subseq-trans h (Subseq-append xs ys)

-- ===== src/Common/Sort.antt =====
-- Python's `sorted(xs, key=...)`: the stable sort, as an insertion sort. `before x y` says that the
-- key of `x` is smaller than the key of `y`.
use mathlib.Core.Bool.{Bool, true, false}
use mathlib.Core.Path.{◌≡◌}
use mathlib.Core.List.{List, [], ◌∷◌, Perm}
use mathlib.Core.List.Perm
use mathlib.Core.Logic.{inl, inr}
use pollard.Common.Tests.{if◌then◌else◌, Bool-cases}
use pollard.Common.Lists.{All}

module _ {ℓ} {A : Type ℓ} (before : A → A → Bool) where
  -- An earlier element goes in front of the later ones of the same key.
  abbrev pub insert_sorted : A → List A → List A
  insert_sorted x [] = x ∷ []
  insert_sorted x (y ∷ ys) = if before y x then y ∷ insert_sorted x ys else x ∷ y ∷ ys

  abbrev pub sorted : List A → List A
  sorted [] = []
  sorted (x ∷ xs) = insert_sorted x (sorted xs)

  insert_sorted-perm : (x : A) (ys : List A) → Perm (insert_sorted x ys) (x ∷ ys)
  insert_sorted-perm x [] = Perm.refl (x ∷ [])
  insert_sorted-perm x (y ∷ ys) = elim (Bool-cases (before y x)) [
    | inl after ↦ rw after (Perm.trans (Perm.cons y (insert_sorted-perm x ys)) (Perm.swap x y ys))
    | inr here ↦ rw here (Perm.refl (x ∷ y ∷ ys))
  ]

  pub sorted-perm : (xs : List A) → Perm (sorted xs) xs
  sorted-perm [] = Perm.refl []
  sorted-perm (x ∷ xs) =
      Perm.trans (insert_sorted-perm x (sorted xs)) (Perm.cons x (sorted-perm xs))

  module _ {κ} (P : A → Type κ) where
    pub All-insert_sorted : (x : A) (ys : List A) → P x → All P ys → All P (insert_sorted x ys)
    All-insert_sorted x [] px h = (px, tt)
    All-insert_sorted x (y ∷ ys) px h = elim (Bool-cases (before y x)) [
      | inl after ↦ rw after (h.0, All-insert_sorted x ys px h.1)
      | inr here ↦ rw here (px, h)
    ]

    pub All-sorted : (xs : List A) → All P xs → All P (sorted xs)
    All-sorted [] h = tt
    All-sorted (x ∷ xs) h = All-insert_sorted x (sorted xs) h.0 (All-sorted xs h.1)

    All-of_insert_sorted : (x : A) (ys : List A) → All P (insert_sorted x ys) → P x × All P ys
    All-of_insert_sorted x [] h = (h.0, tt)
    All-of_insert_sorted x (y ∷ ys) h = elim (Bool-cases (before y x)) [
      | inl after ↦
          let h' : All P (y ∷ insert_sorted x ys) = rw after at h in
          let r = All-of_insert_sorted x ys h'.1 in (r.0, (h'.0, r.1))
      | inr here ↦ let h' : All P (x ∷ y ∷ ys) = rw here at h in (h'.0, h'.1)
    ]

    pub All-of_sorted : (xs : List A) → All P (sorted xs) → All P xs
    All-of_sorted [] h = tt
    All-of_sorted (x ∷ xs) h =
        let r = All-of_insert_sorted x (sorted xs) h in (r.0, All-of_sorted xs r.1)

  -- No element stands behind one that it comes before.
  abbrev pub InOrder : List A → Type 0
  InOrder [] = Unit
  InOrder (x ∷ []) = Unit
  InOrder (x ∷ y ∷ ys) = (before y x ≡ false) × InOrder (y ∷ ys)

  module _ (asymmetric : (x y : A) → before x y ≡ true → before y x ≡ false) where
    insert_sorted-InOrder : (x : A) (ys : List A) → InOrder ys → InOrder (insert_sorted x ys)
    insert_sorted-InOrder x [] h = tt
    insert_sorted-InOrder x (y ∷ []) h = elim (Bool-cases (before y x)) [
      | inl after ↦ rw after (asymmetric y x after, tt)
      | inr here ↦ rw here (here, tt)
    ]
    insert_sorted-InOrder x (y ∷ z ∷ ys) h = elim (Bool-cases (before y x)) [
      | inr here ↦ rw here (here, h)
      | inl after ↦ elim (Bool-cases (before z x)) [
        | inl later ↦
            let rest : InOrder (z ∷ insert_sorted x ys) =
              rw later at (insert_sorted-InOrder x (z ∷ ys) h.1) in
            rw after (rw later (h.0, rest))
        | inr between ↦ rw after (rw between (asymmetric y x after, (between, h.1)))
      ]
    ]

    pub sorted-InOrder : (xs : List A) → InOrder (sorted xs)
    sorted-InOrder [] = tt
    sorted-InOrder (x ∷ xs) = insert_sorted-InOrder x (sorted xs) (sorted-InOrder xs)

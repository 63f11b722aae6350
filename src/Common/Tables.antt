-- ===== src/Common/Tables.antt =====
-- SQL tables as lists of rows, oldest first: SELECT, UPDATE, DELETE and COUNT by a condition.
use Prim.Native.Nat.{ℕ, suc, ◌+◌}
use mathlib.Core.Path.{◌≡◌, refl, sym, ap, subst, ◌∙◌}
use mathlib.Core.Logic.{inl, inr}
use mathlib.Core.Bool.{Bool, true, false}
use mathlib.Core.List.{List, [], ◌∷◌, ◌++◌}
use mathlib.Core.Option.{Option, none, some}
use native.Mathlib.Omega.{arith}
use tailscale_railway_quic_b.Common.Tests.{if◌then◌else◌, Bool-cases}
use tailscale_railway_quic_b.Common.Lists.{All, length}

module _ {ℓ} {A : Type ℓ} where
  -- SELECT … WHERE, in table order.
  unfoldable pub select : (A → Bool) → List A → List A
  select p [] = []
  select p (x ∷ xs) = let rest = select p xs in if p x then x ∷ rest else rest

  -- The first row of SELECT … WHERE.
  unfoldable pub find : (A → Bool) → List A → Option A
  find p [] = none
  find p (x ∷ xs) = let rest = find p xs in if p x then some x else rest

  -- SELECT EXISTS(… WHERE).
  unfoldable pub exists : (A → Bool) → List A → Bool
  exists p [] = false
  exists p (x ∷ xs) = let rest = exists p xs in if p x then true else rest

  -- SELECT COUNT(*) … WHERE; also the affected rows of an UPDATE with that condition.
  unfoldable pub count : (A → Bool) → List A → ℕ
  count p [] = 0
  count p (x ∷ xs) = (if p x then 1 else 0) + count p xs

  -- UPDATE … SET … WHERE.
  unfoldable pub update : (A → Bool) → (A → A) → List A → List A
  update p f [] = []
  update p f (x ∷ xs) = (if p x then f x else x) ∷ update p f xs

  -- DELETE … WHERE.
  unfoldable pub delete : (A → Bool) → List A → List A
  delete p [] = []
  delete p (x ∷ xs) = let rest = delete p xs in if p x then rest else x ∷ rest

  -- The first row of SELECT … ORDER BY … LIMIT 1: the least one by `before`, the oldest of equals.
  unfoldable pub least : (A → A → Bool) → List A → Option A
  least before [] = none
  least before (x ∷ xs) = elim (least before xs) [
    | none ↦ some x
    | some y ↦ some (if before y x then y else x)
  ]

  insert_ordered : (A → A → Bool) → A → List A → List A
  insert_ordered before x [] = x ∷ []
  insert_ordered before x (y ∷ ys) =
      let rest = insert_ordered before x ys in if before y x then y ∷ rest else x ∷ y ∷ ys

  -- SELECT … ORDER BY: a stable order by `before`.
  unfoldable pub order_by : (A → A → Bool) → List A → List A
  unfolding insert_ordered
  order_by before [] = []
  order_by before (x ∷ xs) = insert_ordered before x (order_by before xs)

  pub find-true : (p : A → Bool) (xs : List A) {x : A} → find p xs ≡ some x → p x ≡ true
  unfolding find
  find-true p [] h = cc
  find-true p (y ∷ ys) {x} h = ground (arith, find-true p ys {x = x})

  some_eq : (x y : A) → some x ≡ some y → x ≡ y
  some_eq x y h = ground arith

  pub find-All {κ} :
      (P : A → Type κ) (p : A → Bool) (xs : List A) {x : A} → All P xs → find p xs ≡ some x → P x
  unfolding find
  find-All P p [] _ h = absurd (cc)
  find-All P p (y ∷ ys) {x} (py, pys) h = elim (Bool-cases (p y)) [
    | inl e ↦ subst P (some_eq y x (rw e at h)) py
    | inr e ↦ find-All P p ys pys (rw e at h)
  ]

  pub find-none : (p : A → Bool) (xs : List A) → find p xs ≡ none → All (λ x. p x ≡ false) xs
  unfolding find
  find-none p [] h = tt
  find-none p (y ∷ ys) h = elim (Bool-cases (p y)) [
    | inl e ↦ absurd (ground arith)
    | inr e ↦ (e, find-none p ys (rw e at h))
  ]

  pub All-find : (p : A → Bool) (xs : List A) → All (λ x. p x ≡ false) xs → find p xs ≡ none
  unfolding find
  All-find p [] h = refl
  All-find p (y ∷ ys) (h, hs) = rw h (All-find p ys hs)

  pub exists-find : (p : A → Bool) (xs : List A) → exists p xs ≡ false → find p xs ≡ none
  unfolding exists find
  exists-find p [] h = refl
  exists-find p (y ∷ ys) h = ground (arith, exists-find p ys)

  -- An update keeps a predicate of the rows that its new rows have.
  pub update-All {κ} :
      (P : A → Type κ) (p : A → Bool) (f : A → A) (xs : List A)
      → ((x : A) → P x → p x ≡ true → P (f x))
      → All P xs
      → All P (update p f xs)
  unfolding update
  update-All P p f [] keep _ = tt
  update-All P p f (y ∷ ys) keep (py, pys) = (
    elim (Bool-cases (p y)) [ inl e ↦ rw e (keep y py e) | inr e ↦ rw e py ],
    update-All P p f ys keep pys,
  )

  -- The same where the new table has another predicate.
  pub update-All_to {κ μ} :
      (P : A → Type κ) (Q : A → Type μ) (p : A → Bool) (f : A → A) (xs : List A)
      → ((x : A) → P x → p x ≡ true → Q (f x))
      → ((x : A) → P x → p x ≡ false → Q x)
      → All P xs
      → All Q (update p f xs)
  unfolding update
  update-All_to P Q p f [] yes' no' _ = tt
  update-All_to P Q p f (y ∷ ys) yes' no' (py, pys) = (
    elim (Bool-cases (p y)) [ inl e ↦ rw e (yes' y py e) | inr e ↦ rw e (no' y py e) ],
    update-All_to P Q p f ys yes' no' pys,
  )

  -- Every row that meets the condition is selected.
  pub select-covers {κ} :
      (P : A → Type κ) (p : A → Bool) (xs : List A)
      → All P (select p xs)
      → All (λ x. p x ≡ true → P x) xs
  unfolding select
  select-covers P p [] h = tt
  select-covers P p (y ∷ ys) h = elim (Bool-cases (p y)) [
    | inl e ↦ let (q, qs) = subst (All P) (selected y ys e) h in ((λ _. q), select-covers P p ys qs)
    | inr e ↦ (
      (λ t. absurd (false-true (sym e ∙ t))),
      select-covers P p ys (subst (All P) (skipped y ys e) h),
    )
  ]
    where
      false-true : false ≡ true → ⊥
      false-true h = cc

      selected : (y : A) (ys : List A) → p y ≡ true → select p (y ∷ ys) ≡ y ∷ select p ys
      selected y ys e = rw e

      skipped : (y : A) (ys : List A) → p y ≡ false → select p (y ∷ ys) ≡ select p ys
      skipped y ys e = rw e

  pub select-All {κ} :
      (P : A → Type κ) (p : A → Bool) (xs : List A) → All P xs → All P (select p xs)
  unfolding select
  select-All P p [] _ = tt
  select-All P p (y ∷ ys) (py, pys) = elim (Bool-cases (p y)) [
    | inl e ↦ rw e (py, select-All P p ys pys)
    | inr e ↦ rw e (select-All P p ys pys)
  ]

  pub All-select : (p : A → Bool) (xs : List A) → All (λ x. p x ≡ true) (select p xs)
  unfolding select
  All-select p [] = tt
  All-select p (y ∷ ys) = elim (Bool-cases (p y)) [
    | inl e ↦ rw e (e, All-select p ys)
    | inr e ↦ rw e (All-select p ys)
  ]

  pub delete-All {κ} :
      (P : A → Type κ) (p : A → Bool) (xs : List A) → All P xs → All P (delete p xs)
  unfolding delete
  delete-All P p [] _ = tt
  delete-All P p (y ∷ ys) (py, pys) = elim (Bool-cases (p y)) [
    | inl e ↦ rw e (delete-All P p ys pys)
    | inr e ↦ rw e (py, delete-All P p ys pys)
  ]

  pub length-update : (p : A → Bool) (f : A → A) (xs : List A) → length (update p f xs) ≡ length xs
  unfolding update
  length-update p f [] = refl
  length-update p f (y ∷ ys) = ap suc (length-update p f ys)

  pub count-append : (p : A → Bool) (xs ys : List A) → count p (xs ++ ys) ≡ count p xs + count p ys
  unfolding count
  count-append p [] ys = omega arith
  count-append p (x ∷ xs) ys = omega (arith, count-append p xs ys)

  -- An update of a column that the condition `q` does not read changes no count by `q`.
  pub count-update_same :
      (q p : A → Bool) (f : A → A) (xs : List A)
      → ((x : A) → q (f x) ≡ q x)
      → count q (update p f xs) ≡ count q xs
  unfolding count update
  count-update_same q p f [] same = refl
  count-update_same q p f (x ∷ xs) same = elim (Bool-cases (p x)) [
    | inl e ↦ rw (e, same x) (omega (arith, count-update_same q p f xs same))
    | inr e ↦ rw e (omega (arith, count-update_same q p f xs same))
  ]

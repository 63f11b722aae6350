-- ===== src/Common/Rows.antt =====
-- Laws of the table operations: updates that clear a condition, least rows, counts and selections.
use Prim.Native.Nat.{◌+◌, ◌≤◌, ◌<◌}
use mathlib.Core.Path.{◌≡◌, refl, ap, subst}
use mathlib.Core.Logic.{inl, inr, ◌⊎◌}
use mathlib.Core.Bool.{Bool, true, false}
use mathlib.Core.List.{List, [], ◌∷◌, ◌++◌}
use mathlib.Core.Option.{none, some}
use native.Mathlib.Omega.{arith}
use tailscale_railway_quic_b.Common.Tests.{if◌then◌else◌, Bool-cases, Option-cases}
use tailscale_railway_quic_b.Common.Lists.{All, length}
use tailscale_railway_quic_b.Common.Tables.{select, find, exists, count, update, delete, least}

module _ {A : Type 0} where
  -- Some row has the property.
  abbrev pub Any : (A → Type 0) → List A → Type 0
  Any P [] = ⊥
  Any P (x ∷ xs) = P x ⊎ Any P xs

  -- An update whose new rows fail its condition leaves no row that meets it.
  pub update_clears :
      (p : A → Bool) (f : A → A) (xs : List A)
      → ((x : A) → p x ≡ true → p (f x) ≡ false)
      → All (λ x. p x ≡ false) (update p f xs)
  unfolding update
  update_clears p f [] h = tt
  update_clears p f (x ∷ xs) h = elim (Bool-cases (p x)) [
    | inl e ↦ rw e (h x e, update_clears p f xs h)
    | inr e ↦ rw e (e, update_clears p f xs h)
  ]

  -- A predicate of the rows that meet the condition after an update.
  pub update_sets {κ} :
      (P : A → Type κ) (p : A → Bool) (f : A → A) (xs : List A)
      → ((x : A) → p x ≡ true → P (f x))
      → ((x : A) → p x ≡ false → P x)
      → All P (update p f xs)
  unfolding update
  update_sets P p f [] h k = tt
  update_sets P p f (x ∷ xs) h k = elim (Bool-cases (p x)) [
    | inl e ↦ rw e (h x e, update_sets P p f xs h k)
    | inr e ↦ rw e (k x e, update_sets P p f xs h k)
  ]

  pub All-select_none : (p : A → Bool) (xs : List A) → All (λ x. p x ≡ false) xs → select p xs ≡ []
  unfolding select
  All-select_none p [] h = refl
  All-select_none p (x ∷ xs) (h, hs) = rw h (All-select_none p xs hs)

  pub All-exists : (p : A → Bool) (xs : List A) → All (λ x. p x ≡ false) xs → exists p xs ≡ false
  unfolding exists
  All-exists p [] h = refl
  All-exists p (x ∷ xs) (h, hs) = rw h (All-exists p xs hs)

  pub exists-All : (p : A → Bool) (xs : List A) → exists p xs ≡ false → All (λ x. p x ≡ false) xs
  unfolding exists
  exists-All p [] h = tt
  exists-All p (x ∷ xs) h = elim (Bool-cases (p x)) [
    | inl e ↦ absurd (ground arith)
    | inr e ↦ (e, exists-All p xs (rw e at h))
  ]

  pub count_zero : (p : A → Bool) (xs : List A) → count p xs ≡ 0 → All (λ x. p x ≡ false) xs
  unfolding count
  count_zero p [] h = tt
  count_zero p (x ∷ xs) h = elim (Bool-cases (p x)) [
    | inl e ↦ absurd (ground arith)
    | inr e ↦ (e, count_zero p xs (ground arith))
  ]

  pub All-count : (p : A → Bool) (xs : List A) → All (λ x. p x ≡ false) xs → count p xs ≡ 0
  unfolding count
  All-count p [] h = refl
  All-count p (x ∷ xs) (h, hs) = rw h (omega (arith, All-count p xs hs))

  pub select-append :
      (p : A → Bool) (xs ys : List A) → select p (xs ++ ys) ≡ select p xs ++ select p ys
  unfolding select
  select-append p [] ys = refl
  select-append p (x ∷ xs) ys = ground (arith, select-append p xs ys)

  pub exists-append_self :
      (p : A → Bool) (xs : List A) (y : A) → p y ≡ true → exists p (xs ++ y ∷ []) ≡ true
  unfolding exists
  exists-append_self p [] y h = rw h
  exists-append_self p (x ∷ xs) y h = ground (arith, exists-append_self p xs y)

  pub find-append_none :
      (p : A → Bool) (xs ys : List A) → All (λ x. p x ≡ false) xs → find p (xs ++ ys) ≡ find p ys
  unfolding find
  find-append_none p [] ys h = refl
  find-append_none p (x ∷ xs) ys (h, hs) = rw h (find-append_none p xs ys hs)

  pub Any-find : (p : A → Bool) (xs : List A) {x : A} → find p xs ≡ some x → Any (λ y. y ≡ x) xs
  unfolding find
  Any-find p [] h = absurd (cc)
  Any-find p (y ∷ ys) h = elim (Bool-cases (p y)) [
    | inl e ↦ inl (ground arith)
    | inr e ↦ inr (Any-find p ys (rw e at h))
  ]

  -- A least row is a row of the table.
  pub least-Any :
      (b : A → A → Bool) (xs : List A) {x : A} → least b xs ≡ some x → Any (λ y. y ≡ x) xs
  unfolding least
  least-Any b [] h = absurd (cc)
  least-Any b (y ∷ ys) {x} h = elim (Option-cases (least b ys)) [
    | inl e ↦ inl (ground arith)
    | inr (z, e) ↦ elim (Bool-cases (b z y)) [
      | inl t ↦ inr (least-Any b ys {x = x} (ground arith))
      | inr f ↦ inl (ground arith)
    ]
  ]

  pub least-none : (b : A → A → Bool) (xs : List A) → least b xs ≡ none → xs ≡ []
  unfolding least
  least-none b [] h = refl
  least-none b (y ∷ ys) h = ground arith

  pub select-Any :
      (p : A → Bool) (xs : List A) (x : A)
      → Any (λ y. y ≡ x) (select p xs)
      → Any (λ y. y ≡ x) xs × (p x ≡ true)
  unfolding select
  select-Any p [] x h = absurd h
  select-Any p (y ∷ ys) x h = elim (Bool-cases (p y)) [
    | inl e ↦ elim (subst (λ l. Any (λ z. z ≡ x) l) (select_yes y ys e) h) [
      | inl q ↦ (inl q, subst (λ z. p z ≡ true) q e)
      | inr m ↦ let (a, b) = select-Any p ys x m in (inr a, b)
    ]
    | inr e ↦
        let (a, b) = select-Any p ys x (subst (λ l. Any (λ z. z ≡ x) l) (select_no y ys e) h) in
        (inr a, b)
  ]
    where
      select_yes : (y : A) (ys : List A) → p y ≡ true → select p (y ∷ ys) ≡ y ∷ select p ys
      select_yes y ys e = rw e

      select_no : (y : A) (ys : List A) → p y ≡ false → select p (y ∷ ys) ≡ select p ys
      select_no y ys e = rw e

  pub Any-All {κ μ} : (P : A → Type κ) (xs : List A) (x : A) → Any (λ y. y ≡ x) xs → All P xs → P x
  Any-All P [] x h _ = absurd h
  Any-All P (y ∷ ys) x (inl e) (p, ps) = subst P e p
  Any-All P (y ∷ ys) x (inr m) (p, ps) = Any-All P ys x m ps

  pub count-update_le :
      (q p : A → Bool) (f : A → A) (xs : List A)
      → ((y : A) → q (f y) ≡ false)
      → count q (update p f xs) ≤ count q xs
  unfolding count update
  count-update_le q p f [] h = omega arith
  count-update_le q p f (y ∷ ys) h = elim (Bool-cases (p y)) [
    | inl e ↦ rw (e, h y) (omega (arith, count-update_le q p f ys h))
    | inr e ↦ rw e (omega (arith, count-update_le q p f ys h))
  ]

  -- The rows of a condition after an update that ends it, for one row of the condition at least.
  pub count-update_less :
      (q p : A → Bool) (f : A → A) (xs : List A) (x : A)
      → ((y : A) → q (f y) ≡ false)
      → Any (λ y. y ≡ x) xs
      → q x ≡ true
      → p x ≡ true
      → count q (update p f xs) < count q xs
  unfolding count update
  count-update_less q p f [] x h m hq hp = absurd m
  count-update_less q p f (y ∷ ys) x h (inl e) hq hp =
      rw (ap p e, hp, ap q e, hq, h y) (omega (arith, count-update_le q p f ys h))
  count-update_less q p f (y ∷ ys) x h (inr m) hq hp = elim (Bool-cases (p y)) [
    | inl e ↦ rw (e, h y) (omega (arith, count-update_less q p f ys x h m hq hp))
    | inr e ↦ rw e (omega (arith, count-update_less q p f ys x h m hq hp))
  ]

  -- The first row of a condition that an update does not touch is the updated first row.
  pub find-update :
      (q p : A → Bool) (f : A → A) (xs : List A) {x : A}
      → ((y : A) → q (f y) ≡ q y)
      → find q xs ≡ some x
      → find q (update p f xs) ≡ some (if p x then f x else x)
  unfolding find update
  find-update q p f [] same h = absurd (cc)
  find-update q p f (y ∷ ys) {x} same h = elim (Bool-cases (q y)) [
    | inl e ↦ elim (Bool-cases (p y)) [
      | inl t ↦ rw (t, same y, e) (cc (updated_yes y x t (first_eq y x (rw e at h))))
      | inr t ↦ rw (t, e) (cc (updated_no y x t (first_eq y x (rw e at h))))
    ]
    | inr e ↦ elim (Bool-cases (p y)) [
      | inl t ↦ rw (t, same y, e) (find-update q p f ys {x = x} same (rw e at h))
      | inr t ↦ rw (t, e) (find-update q p f ys {x = x} same (rw e at h))
    ]
  ]
    where
      first_eq : (y x : A) → some y ≡ some x → y ≡ x
      first_eq y x h = ground arith

      updated_yes : (y x : A) → p y ≡ true → y ≡ x → f y ≡ (if p x then f x else x)
      updated_yes y x t e = rw (← e, t)

      updated_no : (y x : A) → p y ≡ false → y ≡ x → y ≡ (if p x then f x else x)
      updated_no y x t e = rw (← e, t)

  pub length-delete : (p : A → Bool) (xs : List A) → length (delete p xs) + count p xs ≡ length xs
  unfolding delete count
  length-delete p [] = refl
  length-delete p (y ∷ ys) = elim (Bool-cases (p y)) [
    | inl e ↦ rw e (omega (arith, length-delete p ys))
    | inr e ↦ rw e (omega (arith, length-delete p ys))
  ]

  pub count-delete_le : (q p : A → Bool) (xs : List A) → count q (delete p xs) ≤ count q xs
  unfolding delete count
  count-delete_le q p [] = omega arith
  count-delete_le q p (y ∷ ys) = elim (Bool-cases (p y)) [
    | inl e ↦ rw e (omega (arith, count-delete_le q p ys))
    | inr e ↦ rw e (omega (arith, count-delete_le q p ys))
  ]

  -- A row that a search finds is counted.
  pub find-count : (p : A → Bool) (xs : List A) {x : A} → find p xs ≡ some x → 1 ≤ count p xs
  unfolding find count
  find-count p [] h = absurd (cc)
  find-count p (y ∷ ys) h = elim (Bool-cases (p y)) [
    | inl e ↦ rw e (omega arith)
    | inr e ↦ rw e (omega (arith, find-count p ys (rw e at h)))
  ]

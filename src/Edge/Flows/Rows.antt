-- ===== src/Edge/Flows/Rows.antt =====
-- Lists of flows in which no two have the same key or the same number.
use tailscale_railway_quic_b.Common.{
  ℕ, ◌+◌, ◌≡◌, ◌≢◌, ◌⊎◌, refl, ap, sym, ◌∙◌, subst, Bool, true, false, text_eq_refl, text_eq_iff,
  List, [], ◌∷◌, ◌++◌, some, ==_refl, if◌then◌else◌, find, update, delete, count, length, All,
  find-All, All-append, delete-All, arith, Bool-cases, inl, inr,
}
use tailscale_railway_quic_b.Edge.Flows.{Flow, has_key, has_id}

abbrev pub Apart : Flow → Flow → Type 0
Apart f g = (f.key ≢ g.key) × (f.id ≢ g.id)

abbrev pub Distinct : List Flow → Type 0
Distinct [] = Unit
Distinct (f ∷ fs) = All (Apart f) fs × Distinct fs

pub delete_none {ℓ} :
    {A : Type ℓ} (p : A → Bool) (xs : List A) → All (λ x. p x ≡ false) xs → delete p xs ≡ xs
unfolding delete
delete_none p [] h = refl
delete_none p (x ∷ xs) (hx, h) = rw hx (ap (λ ys. x ∷ ys) (delete_none p xs h))

not_key : (f g : Flow) → f.key ≢ g.key → has_key f.key g ≡ false
not_key f g h = ground (arith, text_eq_iff g.key f.key)

not_id : (f g : Flow) → f.id ≢ g.id → has_id f.id g ≡ false
not_id f g h = ground arith

not_key' : (f g : Flow) → g.key ≢ f.key → has_key f.key g ≡ false
not_key' f g h = ground (arith, text_eq_iff g.key f.key)

not_id' : (f g : Flow) → g.id ≢ f.id → has_id f.id g ≡ false
not_id' f g h = ground arith

pub no_keys : (f : Flow) (fs : List Flow) → All (Apart f) fs → All (λ g. has_key f.key g ≡ false) fs
no_keys f [] h = tt
no_keys f (g ∷ fs) ((k, i), h) = (not_key f g k, no_keys f fs h)

pub no_ids : (f : Flow) (fs : List Flow) → All (Apart f) fs → All (λ g. has_id f.id g ≡ false) fs
no_ids f [] h = tt
no_ids f (g ∷ fs) ((k, i), h) = (not_id f g i, no_ids f fs h)

find-cons {ℓ} :
    {A : Type ℓ} (p : A → Bool) (y : A) (ys : List A) {x : A}
    → find p (y ∷ ys) ≡ some x
    → ((p y ≡ true) × (y ≡ x)) ⊎ ((p y ≡ false) × (find p ys ≡ some x))
unfolding find
find-cons p y ys {x} h = elim (Bool-cases (p y)) [
  | inl e ↦ inl (e, some-injective (rw e at h))
  | inr e ↦ inr (e, rw e at h)
]
  where
    some-injective : some y ≡ some x → y ≡ x
    some-injective q = ground arith

-- Deleting a flow by its number and deleting it by its key is the same.
pub delete_agree :
    (f : Flow) (xs : List Flow)
    → Distinct xs
    → find (has_id f.id) xs ≡ some f
    → delete (has_key f.key) xs ≡ delete (has_id f.id) xs
unfolding delete
delete_agree f [] d h = refl
delete_agree f (g ∷ gs) (apart, d) h = elim (find-cons (has_id f.id) g gs h) [
  | inl (e, same) ↦
      subst (λ x. delete (has_key x.key) (g ∷ gs) ≡ delete (has_id x.id) (g ∷ gs)) same
        (rw (text_eq_refl g.key, ==_refl g.id)
          (delete_none (has_key g.key) gs (no_keys g gs apart)
            ∙ sym (delete_none (has_id g.id) gs (no_ids g gs apart))))
  | inr (e, rest) ↦
      let (k, i) = find-All (Apart g) (has_id f.id) gs apart rest in
      rw (e, not_key' f g k) (ap (λ ys. g ∷ ys) (delete_agree f gs d rest))
]

-- A deletion by number takes the flow out of every count.
pub count-delete :
    (p : Flow → Bool) (f : Flow) (xs : List Flow)
    → Distinct xs
    → find (has_id f.id) xs ≡ some f
    → count p (delete (has_id f.id) xs) + (if p f then 1 else 0) ≡ count p xs
unfolding delete count
count-delete p f [] d h = absurd (unfold find in cc h)
count-delete p f (g ∷ gs) (apart, d) h = elim (find-cons (has_id f.id) g gs h) [
  | inl (e, same) ↦
      subst
        (λ x. count p (delete (has_id x.id) (g ∷ gs)) + (if p x then 1 else 0) ≡ count p (g ∷ gs))
        same
        (rw (==_refl g.id) (rw (delete_none (has_id g.id) gs (no_ids g gs apart)) (omega arith)))
  | inr (e, rest) ↦ let ih = count-delete p f gs d rest in rw e (omega arith)
]

pub length-count {ℓ} : {A : Type ℓ} (xs : List A) → count (λ _. true) xs ≡ length xs
unfolding count
length-count [] = refl
length-count (x ∷ xs) = let ih = length-count xs in omega arith

pub Distinct-delete : (p : Flow → Bool) (xs : List Flow) → Distinct xs → Distinct (delete p xs)
unfolding delete
Distinct-delete p [] d = tt
Distinct-delete p (g ∷ gs) (apart, d) = elim (Bool-cases (p g)) [
  | inl e ↦ rw e (Distinct-delete p gs d)
  | inr e ↦ rw e (delete-All (Apart g) p gs apart, Distinct-delete p gs d)
]

pub Distinct-append :
    (xs : List Flow) (f : Flow) → Distinct xs → All (λ g. Apart g f) xs → Distinct (xs ++ f ∷ [])
Distinct-append [] f d h = (tt, tt)
Distinct-append (g ∷ gs) f (apart, d) (hg, h) =
    (All-append (Apart g) gs (f ∷ []) apart (hg, tt), Distinct-append gs f d h)

update-Apart :
    (p : Flow → Bool) (w : Flow → Flow) (g : Flow) (xs : List Flow)
    → ((f : Flow) → (w f).key ≡ f.key)
    → ((f : Flow) → (w f).id ≡ f.id)
    → All (Apart g) xs
    → All (Apart g) (update p w xs)
unfolding update
update-Apart p w g [] keys ids h = tt
update-Apart p w g (f ∷ fs) keys ids ((hk, hi), h) = elim (Bool-cases (p f)) [
  | inl e ↦ rw (e, keys f, ids f) ((hk, hi), update-Apart p w g fs keys ids h)
  | inr e ↦ rw e ((hk, hi), update-Apart p w g fs keys ids h)
]

-- A write to other columns.
pub Distinct-update :
    (p : Flow → Bool) (w : Flow → Flow) (xs : List Flow)
    → ((f : Flow) → (w f).key ≡ f.key)
    → ((f : Flow) → (w f).id ≡ f.id)
    → Distinct xs
    → Distinct (update p w xs)
unfolding update
Distinct-update p w [] keys ids d = tt
Distinct-update p w (f ∷ fs) keys ids (apart, d) =
    let rest = update-Apart p w f fs keys ids apart in
    let d' = Distinct-update p w fs keys ids d in
    elim (Bool-cases (p f)) [ inl e ↦ rw (e, keys f, ids f) (rest, d') | inr e ↦ rw e (rest, d') ]

find_each-cons :
    (g : Flow) (gs ys : List Flow)
    → All (Apart g) ys
    → All (λ y. find (has_id y.id) gs ≡ some y) ys
    → All (λ y. find (has_id y.id) (g ∷ gs) ≡ some y) ys
unfolding find
find_each-cons g gs [] apart h = tt
find_each-cons g gs (y ∷ ys) ((k, i), apart) (hy, h) =
    let no : has_id y.id g ≡ false = not_id' y g i in (rw no hy, find_each-cons g gs ys apart h)

-- Every flow of a list is found by its number.
pub find_each : (xs : List Flow) → Distinct xs → All (λ g. find (has_id g.id) xs ≡ some g) xs
unfolding find
find_each [] d = tt
find_each (g ∷ gs) (apart, d) = (rw (==_refl g.id), find_each-cons g gs gs apart (find_each gs d))

pub find-delete :
    (i j : ℕ) (xs : List Flow) → i ≢ j → find (has_id i) (delete (has_id j) xs) ≡ find (has_id i) xs
unfolding find delete
find-delete i j [] h = refl
find-delete i j (g ∷ gs) h = elim (Bool-cases (has_id j g)) [
  | inl e ↦ let other : has_id i g ≡ false = ground arith in rw (e, other) (find-delete i j gs h)
  | inr e ↦ rw e (ap (λ o. if has_id i g then some g else o) (find-delete i j gs h))
]

-- ===== src/Prelude/Table.antt =====
-- A database table as the list of its rows, with the queries that the program makes of it:
-- `filter(p).first()`, `filter(p).exists()`, `filter(p)`, `filter(p).update(f)` and the number of
-- rows that an update or a count returns.
use Prim.Native.Nat.{ℕ, suc, ◌+◌}
use mathlib.Core.Path.{◌≡◌, refl, sym, ap, ap₂, subst, ◌∙◌}
use mathlib.Core.Logic.{inl, inr}
use mathlib.Core.Bool.{Bool, true, false, ◌||◌}
use mathlib.Core.Option
use mathlib.Core.Option.{Option, none, some, some-injective}
use mathlib.Core.List.{List, [], ◌∷◌, ◌++◌}
use native.Mathlib.Omega.{arith}
use smallstack_tabler.Prelude.Tests.{if◌then◌else◌, Bool-cases}
use smallstack_tabler.Prelude.Lists.{All, length}

module _ {ℓ} {A : Type ℓ} where
  unfoldable pub find : (A → Bool) → List A → Option A
  find p [] = none
  find p (x ∷ xs) = if p x then some x else find p xs

  unfoldable pub any_row : (A → Bool) → List A → Bool
  any_row p [] = false
  any_row p (x ∷ xs) = p x || any_row p xs

  unfoldable pub filter_rows : (A → Bool) → List A → List A
  filter_rows p [] = []
  filter_rows p (x ∷ xs) = let rest = filter_rows p xs in if p x then x ∷ rest else rest

  unfoldable pub count_where : (A → Bool) → List A → ℕ
  count_where p [] = 0
  count_where p (x ∷ xs) = let rest = count_where p xs in if p x then suc rest else rest

  -- The row that an UPDATE leaves.
  abbrev pub written : (A → Bool) → (A → A) → A → A
  written p f x = if p x then f x else x

  unfoldable pub update_where : (A → Bool) → (A → A) → List A → List A
  update_where p f [] = []
  update_where p f (x ∷ xs) = written p f x ∷ update_where p f xs

-- No two rows agree on the columns that `r` compares: a unique constraint.
abbrev pub Unique {ℓ} : {A : Type ℓ} → (A → A → Bool) → List A → Type 0
Unique r [] = Unit
Unique r (x ∷ xs) = (any_row (r x) xs ≡ false) × Unique r xs

module _ {ℓ} {A : Type ℓ} where
  pub find-append-none :
      (p : A → Bool) (xs ys : List A) → find p xs ≡ none → find p (xs ++ ys) ≡ find p ys
  unfolding find
  find-append-none p [] ys h = refl
  find-append-none p (x ∷ xs) ys h = ground (arith, find-append-none p xs ys)

  pub find-append-some :
      (p : A → Bool) (xs ys : List A) (a : A) → find p xs ≡ some a → find p (xs ++ ys) ≡ some a
  unfolding find
  find-append-some p [] ys a h = ground arith
  find-append-some p (x ∷ xs) ys a h = ground (arith, find-append-some p xs ys a)

  pub any_row-append :
      (p : A → Bool) (xs ys : List A) → any_row p (xs ++ ys) ≡ (any_row p xs || any_row p ys)
  unfolding any_row
  any_row-append p [] ys = refl
  any_row-append p (x ∷ xs) ys = ground (arith, any_row-append p xs ys)

  pub find-eq-none : (p : A → Bool) (xs : List A) → any_row p xs ≡ false → find p xs ≡ none
  unfolding find any_row
  find-eq-none p [] h = refl
  find-eq-none p (x ∷ xs) h = ground (arith, find-eq-none p xs)

  pub any_row-find : (p : A → Bool) (xs : List A) (a : A) → find p xs ≡ some a → any_row p xs ≡ true
  unfolding find any_row
  any_row-find p [] a h = ground arith
  any_row-find p (x ∷ xs) a h = ground (arith, any_row-find p xs a)

  -- What a query returns satisfies its test, and every predicate that all rows satisfy.
  pub find-test : (p : A → Bool) (xs : List A) (a : A) → find p xs ≡ some a → p a ≡ true
  unfolding find
  find-test p [] a h = ground arith
  find-test p (x ∷ xs) a h = ground (arith, find-test p xs a)

  pub find-All {κ} :
      (P : A → Type κ) (p : A → Bool) (xs : List A) (a : A) → All P xs → find p xs ≡ some a → P a
  unfolding find
  find-All P p [] a h e = cc
  find-All P p (x ∷ xs) a h e = elim (Bool-cases (p x)) [
    | inl t ↦ subst P (some-injective x a (rw t at e)) h.0
    | inr f ↦ find-All P p xs a h.1 (rw f at e)
  ]

  pub All-update_where {κ} :
      (P : A → Type κ) (p : A → Bool) (f : A → A) (xs : List A)
      → ((x : A) → P x → P (written p f x))
      → All P xs
      → All P (update_where p f xs)
  unfolding update_where
  All-update_where P p f [] k h = h
  All-update_where P p f (x ∷ xs) k h = (k x h.0, All-update_where P p f xs k h.1)

  pub find-update_where :
      (q p : A → Bool) (f : A → A) (xs : List A)
      → ((x : A) → q (written p f x) ≡ q x)
      → find q (update_where p f xs) ≡ Option.map (written p f) (find q xs)
  unfolding find update_where
  find-update_where q p f [] k = refl
  find-update_where q p f (x ∷ xs) k = ground (arith, k x, find-update_where q p f xs k)

  pub any_row-update_where :
      (q p : A → Bool) (f : A → A) (xs : List A)
      → ((x : A) → q (written p f x) ≡ q x)
      → any_row q (update_where p f xs) ≡ any_row q xs
  unfolding any_row update_where
  any_row-update_where q p f [] k = refl
  any_row-update_where q p f (x ∷ xs) k = ground (arith, k x, any_row-update_where q p f xs k)

  pub update_where-none :
      (p : A → Bool) (f : A → A) (xs : List A) → any_row p xs ≡ false → update_where p f xs ≡ xs
  unfolding any_row update_where
  update_where-none p f [] h = refl
  update_where-none p f (x ∷ xs) h = ground (arith, update_where-none p f xs)

  pub Unique-snoc :
      (r : A → A → Bool) (xs : List A) (y : A)
      → Unique r xs
      → any_row (λ x. r x y) xs ≡ false
      → Unique r (xs ++ y ∷ [])
  unfolding any_row
  Unique-snoc r [] y u h = (refl, tt)
  Unique-snoc r (x ∷ xs) y u h =
      (ground (arith, any_row-append (r x) xs (y ∷ []), u.0), Unique-snoc r xs y u.1 (ground arith))

  any_row-written :
      (r : A → A → Bool) (p : A → Bool) (f : A → A) (x : A) (xs : List A)
      → ((x y : A) → r (written p f x) (written p f y) ≡ r x y)
      → any_row (r (written p f x)) (update_where p f xs) ≡ any_row (r x) xs
  unfolding any_row update_where
  any_row-written r p f x [] k = refl
  any_row-written r p f x (y ∷ ys) k = ap₂ ◌||◌ (k x y) (any_row-written r p f x ys k)

  pub Unique-update_where :
      (r : A → A → Bool) (p : A → Bool) (f : A → A) (xs : List A)
      → ((x y : A) → r (written p f x) (written p f y) ≡ r x y)
      → Unique r xs
      → Unique r (update_where p f xs)
  unfolding update_where
  Unique-update_where r p f [] k u = tt
  Unique-update_where r p f (x ∷ xs) k u =
      (any_row-written r p f x xs k ∙ u.0, Unique-update_where r p f xs k u.1)

  pub length-update_where :
      (p : A → Bool) (f : A → A) (xs : List A) → length (update_where p f xs) ≡ length xs
  unfolding update_where
  length-update_where p f [] = refl
  length-update_where p f (x ∷ xs) = ap suc (length-update_where p f xs)

  pub any_row-false : (p : A → Bool) (xs : List A) → ((x : A) → p x ≡ false) → any_row p xs ≡ false
  unfolding any_row
  any_row-false p [] h = refl
  any_row-false p (x ∷ xs) h = ground (arith, h x, any_row-false p xs h)

  pub any_row-eq-false : (p : A → Bool) (xs : List A) → find p xs ≡ none → any_row p xs ≡ false
  unfolding find any_row
  any_row-eq-false p [] h = refl
  any_row-eq-false p (x ∷ xs) h = ground (arith, any_row-eq-false p xs)

  -- An update that does not touch the keys leaves a row that it does not select.
  pub find-update_some :
      (q p : A → Bool) (f : A → A) (xs : List A) (a : A)
      → find q xs ≡ some a
      → ((x : A) → q (written p f x) ≡ q x)
      → p a ≡ false
      → find q (update_where p f xs) ≡ some a
  find-update_some q p f xs a e k h = find-update_where q p f xs k ∙ rw e (ap some (rw h))

  pub any_row_mono :
      (p q : A → Bool) (xs : List A)
      → ((x : A) → p x ≡ true → q x ≡ true)
      → any_row p xs ≡ true
      → any_row q xs ≡ true
  unfolding any_row
  any_row_mono p q [] k h = h
  any_row_mono p q (x ∷ xs) k h = ground (arith, k x, any_row_mono p q xs k)

  pub any_row-found :
      (q p : A → Bool) (xs : List A) (a : A) → find q xs ≡ some a → p a ≡ true → any_row p xs ≡ true
  unfolding any_row find
  any_row-found q p [] a e h = cc
  any_row-found q p (x ∷ xs) a e h = elim (Bool-cases (q x)) [
    | inl t ↦ rw (ap p (some-injective x a (rw t at e)) ∙ h)
    | inr f ↦ ground (arith, any_row-found q p xs a (rw f at e) h)
  ]

  -- Where a column is unique, the row that any query returns is the one that its key finds.
  pub find-Unique :
      (r : A → A → Bool) (q : A → Bool) (xs : List A) (a : A)
      → Unique r xs
      → r a a ≡ true
      → find q xs ≡ some a
      → find (λ x. r x a) xs ≡ some a
  unfolding find
  find-Unique r q [] a u k e = e
  find-Unique r q (x ∷ xs) a u k e = elim (Bool-cases (q x)) [
    | inl t ↦ let same = some-injective x a (rw t at e) in rw same (rw k)
    | inr f ↦
        let later : find q xs ≡ some a = rw f at e in
        elim (Bool-cases (r x a)) [
          | inl h ↦ absurd (clash (sym (any_row-found q (r x) xs a later h) ∙ u.0))
          | inr h ↦ rw h (find-Unique r q xs a u.1 k later)
        ]
  ]
    where
      clash : true ≡ false → ⊥
      clash p = cc

  pub filter_rows-All {κ} :
      (P : A → Type κ) (p : A → Bool) (xs : List A)
      → All (λ x. p x ≡ true → P x) xs
      → All P (filter_rows p xs)
  unfolding filter_rows
  filter_rows-All P p [] h = h
  filter_rows-All P p (x ∷ xs) h = kept (p x) _ h.0 (filter_rows-All P p xs h.1)
    where
      kept :
          (b : Bool) (ys : List A) → (b ≡ true → P x) → All P ys → All P (if b then x ∷ ys else ys)
      kept true ys k hs = (k refl, hs)
      kept false ys k hs = hs

  -- What an update takes out of its own test is matched no more.
  pub any_row-update_self :
      (p : A → Bool) (f : A → A) (xs : List A)
      → ((x : A) → p x ≡ true → p (f x) ≡ false)
      → any_row p (update_where p f xs) ≡ false
  unfolding any_row update_where
  any_row-update_self p f [] k = refl
  any_row-update_self p f (x ∷ xs) k = ground (arith, k x, any_row-update_self p f xs k)

  pub filter_rows-eq :
      (p q : A → Bool) (xs : List A) → ((x : A) → p x ≡ q x) → filter_rows p xs ≡ filter_rows q xs
  unfolding filter_rows
  filter_rows-eq p q [] k = refl
  filter_rows-eq p q (x ∷ xs) k = ground (arith, k x, filter_rows-eq p q xs k)

  pub filter_rows-true :
      (p : A → Bool) (xs : List A) → ((x : A) → p x ≡ true) → filter_rows p xs ≡ xs
  unfolding filter_rows
  filter_rows-true p [] k = refl
  filter_rows-true p (x ∷ xs) k = ground (arith, k x, filter_rows-true p xs k)

  pub filter_rows-false :
      (p : A → Bool) (xs : List A) → ((x : A) → p x ≡ false) → filter_rows p xs ≡ []
  unfolding filter_rows
  filter_rows-false p [] k = refl
  filter_rows-false p (x ∷ xs) k = ground (arith, k x, filter_rows-false p xs k)

  -- An update changes nothing that `g` reads of the row that a query finds.
  pub find-update_kept {κ} :
      {B : Type κ} (g : A → B) (q p : A → Bool) (f : A → A) (xs : List A) (a : A)
      → find q xs ≡ some a
      → ((x : A) → q (written p f x) ≡ q x)
      → g (written p f a) ≡ g a
      → (b : A) × (find q (update_where p f xs) ≡ some b) × (g b ≡ g a)
  find-update_kept g q p f xs a e k h = (written p f a, find-update_where q p f xs k ∙ rw e refl, h)

  pub count_where-append :
      (p : A → Bool) (xs ys : List A)
      → count_where p (xs ++ ys) ≡ count_where p xs + count_where p ys
  unfolding count_where
  count_where-append p [] ys = omega arith
  count_where-append p (x ∷ xs) ys = ground (arith, count_where-append p xs ys)

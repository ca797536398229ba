-- ===== src/Prelude/Keyed.antt =====
-- Tables whose rows have a numeric key that is unique, and the last row of a query.
use Prim.Native.Nat.{ℕ}
use mathlib.Core.Path.{◌≡◌, refl, sym, ap, subst, ◌∙◌}
use mathlib.Core.Logic.{inl, inr}
use mathlib.Core.Bool.{Bool, true, false}
use mathlib.Core.Option.{some, some-injective}
use mathlib.Core.List.{List, [], ◌∷◌, ◌++◌, map}
use native.Mathlib.Omega.{arith}
use smallstack_tabler.Prelude.Tests.{◌==◌, ==_refl, ==→eq, Bool-cases, if◌then◌else◌}
use smallstack_tabler.Prelude.Lists.{All, get_last?}
use smallstack_tabler.Prelude.Table.{
  find, any_row, filter_rows, update_where, written, Unique, find-test, any_row-found,
}

abbrev pub same_key {ℓ} : {A : Type ℓ} → (A → ℕ) → A → A → Bool
same_key k x y = k x == k y

-- The same list with its last element changed.
abbrev pub set_last {ℓ} : {A : Type ℓ} → (A → A) → List A → List A
set_last f [] = []
set_last f (x ∷ []) = f x ∷ []
set_last f (x ∷ y ∷ ys) = x ∷ set_last f (y ∷ ys)

module _ {ℓ} {A : Type ℓ} where
  pub filter_rows-append :
      (p : A → Bool) (xs ys : List A)
      → filter_rows p (xs ++ ys) ≡ filter_rows p xs ++ filter_rows p ys
  unfolding filter_rows
  filter_rows-append p [] ys = refl
  filter_rows-append p (x ∷ xs) ys = ground (arith, filter_rows-append p xs ys)

  pub filter_rows-update_where :
      (p q : A → Bool) (f : A → A) (xs : List A)
      → ((x : A) → p (written q f x) ≡ p x)
      → filter_rows p (update_where q f xs) ≡ update_where q f (filter_rows p xs)
  unfolding filter_rows update_where
  filter_rows-update_where p q f [] k = refl
  filter_rows-update_where p q f (x ∷ xs) k =
      ground (arith, k x, filter_rows-update_where p q f xs k)

  pub get_last?-append : (xs : List A) (y : A) → get_last? (xs ++ y ∷ []) ≡ some y
  get_last?-append [] y = refl
  get_last?-append (x ∷ []) y = refl
  get_last?-append (x ∷ z ∷ xs) y = get_last?-append (z ∷ xs) y

  any_row-filter_rows :
      (q p : A → Bool) (xs : List A) → any_row q xs ≡ false → any_row q (filter_rows p xs) ≡ false
  unfolding any_row filter_rows
  any_row-filter_rows q p [] h = refl
  any_row-filter_rows q p (x ∷ xs) h = ground (arith, any_row-filter_rows q p xs)

  pub Unique-filter_rows :
      (r : A → A → Bool) (p : A → Bool) (xs : List A) → Unique r xs → Unique r (filter_rows p xs)
  unfolding filter_rows
  Unique-filter_rows r p [] u = tt
  Unique-filter_rows r p (x ∷ xs) u = elim (Bool-cases (p x)) [
    | inl t ↦ rw t (any_row-filter_rows (r x) p xs u.0, Unique-filter_rows r p xs u.1)
    | inr f ↦ rw f (Unique-filter_rows r p xs u.1)
  ]

  pub any_row-map :
      (k : A → ℕ) (i : ℕ) (xs : List A)
      → any_row (λ x. x == i) (map k xs) ≡ any_row (λ x. k x == i) xs
  unfolding any_row
  any_row-map k i [] = refl
  any_row-map k i (x ∷ xs) = ground (arith, any_row-map k i xs)

  -- The last row of a query is the one that its key finds.
  pub find-get_last? :
      (k : A → ℕ) (xs : List A) (v : A)
      → Unique (same_key k) xs
      → get_last? xs ≡ some v
      → find (λ x. k x == k v) xs ≡ some v
  unfolding find
  find-get_last? k [] v u h = cc
  find-get_last? k (x ∷ []) v u h = rw (some-injective x v h) (rw (==_refl (k v)))
  find-get_last? k (x ∷ y ∷ xs) v u h =
      let later = find-get_last? k (y ∷ xs) v u.1 h in
      elim (Bool-cases (k x == k v)) [
        | inr f ↦ rw f later
        | inl t ↦
            let clash =
              sym (any_row-found (λ z. k z == k v) (same_key k x) (y ∷ xs) v later t) ∙ u.0 in
            cc
      ]

  -- A row that a query on the whole table finds, where a narrower query finds it.
  pub find-filter_rows :
      (k : A → ℕ) (p : A → Bool) (xs : List A) (i : ℕ) (v : A)
      → Unique (same_key k) xs
      → find (λ x. k x == i) (filter_rows p xs) ≡ some v
      → find (λ x. k x == i) xs ≡ some v
  unfolding find filter_rows
  find-filter_rows k p [] i v u h = h
  find-filter_rows k p (x ∷ xs) i v u h = elim (Bool-cases (p x)) [
    | inl t ↦ elim (Bool-cases (k x == i)) [
      | inl e ↦ rw e (rw (t, e) at h)
      | inr e ↦ rw e (find-filter_rows k p xs i v u.1 (rw (t, e) at h))
    ]
    | inr f ↦ elim (Bool-cases (k x == i)) [
      | inr e ↦ rw e (find-filter_rows k p xs i v u.1 (rw f at h))
      | inl e ↦
          let later = find-filter_rows k p xs i v u.1 (rw f at h) in
          let twice =
            any_row-found (λ z. k z == i) (same_key k x) xs v later
              (ground (arith, find-test (λ z. k z == i) xs v later)) in
          let clash = sym twice ∙ u.0 in cc
    ]
  ]

  -- An update by the key of the last row changes only that row.
  pub update_where-set_last :
      (k : A → ℕ) (f : A → A) (xs : List A) (v : A)
      → Unique (same_key k) xs
      → get_last? xs ≡ some v
      → update_where (λ x. k x == k v) f xs ≡ set_last f xs
  unfolding update_where
  update_where-set_last k f [] v u h = refl
  update_where-set_last k f (x ∷ []) v u h = rw (some-injective x v h) (rw (==_refl (k v)))
  update_where-set_last k f (x ∷ y ∷ xs) v u h =
      let later = find-get_last? k (y ∷ xs) v u.1 h in
      elim (Bool-cases (k x == k v)) [
        | inr e ↦ rw e (ap (◌∷◌ x) (update_where-set_last k f (y ∷ xs) v u.1 h))
        | inl t ↦
            let clash =
              sym (any_row-found (λ z. k z == k v) (same_key k x) (y ∷ xs) v later t) ∙ u.0 in
            cc
      ]

  same_key-sym :
      (k : A → ℕ) (i : ℕ) (x : A) (xs : List A)
      → k x ≡ i
      → any_row (same_key k x) xs ≡ any_row (λ z. k z == i) xs
  unfolding any_row
  same_key-sym k i x [] e = refl
  same_key-sym k i x (y ∷ ys) e = ground (arith, same_key-sym k i x ys e)

  -- The row of a key is in no query that leaves it out.
  pub any_row-left_out :
      (k : A → ℕ) (p : A → Bool) (xs : List A) (i : ℕ) (v : A)
      → Unique (same_key k) xs
      → find (λ x. k x == i) xs ≡ some v
      → p v ≡ false
      → any_row (λ x. k x == i) (filter_rows p xs) ≡ false
  unfolding find any_row filter_rows
  any_row-left_out k p [] i v u h e = refl
  any_row-left_out k p (x ∷ xs) i v u h e = elim (Bool-cases (k x == i)) [
    | inl t ↦
        let same = some-injective x v (rw t at h) in
        let out : p x ≡ false = ap p same ∙ e in
        let none_left : any_row (λ z. k z == i) xs ≡ false =
          sym (same_key-sym k i x xs (==→eq (k x) i t)) ∙ u.0 in
        rw out (any_row-filter_rows (λ z. k z == i) p xs none_left)
    | inr f ↦ elim (Bool-cases (p x)) [
      | inl t ↦ rw t (ground (arith, any_row-left_out k p xs i v u.1 (rw f at h) e))
      | inr o ↦ rw o (any_row-left_out k p xs i v u.1 (rw f at h) e)
    ]
  ]

pub get_last?-set_last {ℓ} :
    {A : Type ℓ} (f : A → A) (xs : List A) (v : A)
    → get_last? xs ≡ some v
    → get_last? (set_last f xs) ≡ some (f v)
get_last?-set_last f [] v h = cc
get_last?-set_last f (x ∷ []) v h = cc
get_last?-set_last f (x ∷ y ∷ []) v h = cc
get_last?-set_last f (x ∷ y ∷ z ∷ zs) v h = get_last?-set_last f (y ∷ z ∷ zs) v h

pub All-set_last {ℓ κ} :
    {A : Type ℓ} (P : A → Type κ) (f : A → A) (xs : List A)
    → ((x : A) → P x → P (f x))
    → All P xs
    → All P (set_last f xs)
All-set_last P f [] k h = h
All-set_last P f (x ∷ []) k h = (k x h.0, tt)
All-set_last P f (x ∷ y ∷ ys) k h = (h.0, All-set_last P f (y ∷ ys) k h.1)

pub All-get_last? {ℓ κ} :
    {A : Type ℓ} (P : A → Type κ) (xs : List A) (v : A) → All P xs → get_last? xs ≡ some v → P v
All-get_last? P [] v k h = cc
All-get_last? P (x ∷ []) v k h = subst P (some-injective x v h) k.0
All-get_last? P (x ∷ y ∷ ys) v k h = All-get_last? P (y ∷ ys) v k.1 h

pub map-append {ℓ κ} :
    {A : Type ℓ} {B : Type κ} (f : A → B) (xs ys : List A) → map f (xs ++ ys) ≡ map f xs ++ map f ys
map-append f [] ys = refl
map-append f (x ∷ xs) ys = ap (◌∷◌ (f x)) (map-append f xs ys)

module _ {ℓ} {A : Type ℓ} where
  pub any_row-All : (p : A → Bool) (xs : List A) → any_row p xs ≡ false → All (λ x. p x ≡ false) xs
  unfolding any_row
  any_row-All p [] h = tt
  any_row-All p (x ∷ xs) h = (ground arith, any_row-All p xs (ground arith))

  -- Each row of a table is the one that its key finds.
  pub All-found :
      (k : A → ℕ) (xs : List A)
      → Unique (same_key k) xs
      → All (λ v. find (λ x. k x == k v) xs ≡ some v) xs
  unfolding find
  All-found k [] u = tt
  All-found k (x ∷ xs) u =
      (rw (==_refl (k x)) refl, both xs (any_row-All (same_key k x) xs u.0) (All-found k xs u.1))
    where
      both :
          (ys : List A)
          → All (λ y. same_key k x y ≡ false) ys
          → All (λ v. find (λ z. k z == k v) xs ≡ some v) ys
          → All (λ v. (if k x == k v then some x else find (λ z. k z == k v) xs) ≡ some v) ys
      both [] a b = tt
      both (y ∷ ys) a b = (rw a.0 b.0, both ys a.1 b.1)

  pub filter_rows-swap :
      (p q : A → Bool) (xs : List A)
      → filter_rows p (filter_rows q xs) ≡ filter_rows q (filter_rows p xs)
  unfolding filter_rows
  filter_rows-swap p q [] = refl
  filter_rows-swap p q (x ∷ xs) = ground (arith, filter_rows-swap p q xs)

  get_last?-cons :
      (x : A) (zs : List A) (v : A) → get_last? zs ≡ some v → get_last? (x ∷ zs) ≡ some v
  get_last?-cons x [] v h = cc
  get_last?-cons x (z ∷ zs) v h = h

  -- A filter that keeps the last row.
  pub get_last?-filter_rows :
      (q : A → Bool) (xs : List A) (v : A)
      → get_last? xs ≡ some v
      → q v ≡ true
      → get_last? (filter_rows q xs) ≡ some v
  unfolding filter_rows
  get_last?-filter_rows q [] v h e = cc
  get_last?-filter_rows q (x ∷ []) v h e = rw (some-injective x v h, e) refl
  get_last?-filter_rows q (x ∷ y ∷ ys) v h e =
      let later = get_last?-filter_rows q (y ∷ ys) v h e in
      elim (Bool-cases (q x)) [
        | inl t ↦ rw t (get_last?-cons x (filter_rows q (y ∷ ys)) v later)
        | inr f ↦ rw f later
      ]

  pub filter_rows-kept :
      (q : A → Bool) (xs : List A) → All (λ x. q x ≡ true) xs → filter_rows q xs ≡ xs
  unfolding filter_rows
  filter_rows-kept q [] h = refl
  filter_rows-kept q (x ∷ xs) h = rw h.0 (ap (◌∷◌ x) (filter_rows-kept q xs h.1))

-- ===== src/Tasks/Model/Keys.antt =====
-- apps/tasks/models.py: queries by a unique id and a further test.
use smallstack_tabler.Prelude.{
  ℕ, ◌≡◌, refl, Bool, true, ◌&&◌, some, List, [], ◌∷◌, arith, any_row, any_row_mono, find, Unique,
  Bool-cases, inl, inr, ◌==◌,
}
use smallstack_tabler.Tasks.Model.{Row, has_row_id, same_row}

module _ (t : Row → Bool) (c : ℕ) where
  same_id :
      (x : Row)
      → (x.id == c) ≡ true
      → (y : Row) → (has_row_id c y && t y) ≡ true
      → same_row x y ≡ true
  same_id x h y r = ground arith

  pub find-keyed :
      (xs : List Row)
      → Unique same_row xs
      → any_row (λ x. has_row_id c x && t x) xs ≡ true
      → (r : Row) × (find (has_row_id c) xs ≡ some r) × ((has_row_id c r && t r) ≡ true)
  unfolding any_row find
  find-keyed [] u h = cc
  find-keyed (x ∷ xs) u h = elim (Bool-cases (x.id == c)) [
    | inr other ↦ let (r, e, m) = find-keyed xs u.1 (ground arith) in (r, rw (other, find) e, m)
    | inl this ↦ (
      x,
      rw (this, find) refl,
      ground (arith, any_row_mono (λ y. has_row_id c y && t y) (same_row x) xs (same_id x this)),
    )
  ]

-- ===== src/Heartbeat/Services/Folded.antt =====
-- apps/heartbeat/services.py: what folding a batch adds to the summary of a day.
use smallstack_tabler.Prelude.{
  ℕ, ◌+◌, ◌≡◌, refl, sym, ap, ◌∙◌, String, Bool, true, false, Option, none, some, List, [], ◌∷◌,
  arith, ==→eq, ==_refl, eq_iff, find, any_row, update_where, written, find-append-none,
  find-append-some, find-update_where, any_row-eq-false, any_row-found, find-test, Bool-cases,
  Option-cases, inl, inr, if◌then◌else◌,
}
use mathlib.Core.Path.{ap₂}
use mathlib.Core.Option
use smallstack_tabler.Heartbeat.Services.{
  HeartbeatDaily, Group, same_group, is_row_of, new_row, get_or_create, column_of, column_value,
}

pub same_group-eq : (g h : Group) → same_group g h ≡ true → g ≡ h
same_group-eq g h e =
    ap₂ (λ (k : String) (d : ℕ). (k, d)) ((eq_iff g.0 h.0).0 (ground arith))
      (==→eq g.1 h.1 (ground arith))

pub same_group_refl : (g : Group) → same_group g g ≡ true
same_group_refl g = rw ((eq_iff g.0 g.0).1 refl, ==_refl g.1) refl

-- A column that a new row has at zero, and to which an update adds a number.
module _ (f : HeartbeatDaily → ℕ) (zero_at : (g : Group) (e : ℕ) → f (new_row g e) ≡ 0) where
  column_of-get_or_create :
      (g h : Group) (e : ℕ) (rows : List HeartbeatDaily)
      → column_of f g (get_or_create h e rows) ≡ column_of f g rows
  unfolding get_or_create find
  column_of-get_or_create g h e rows = elim (Bool-cases (any_row (is_row_of h) rows)) [
    | inl t ↦ rw t refl
    | inr n ↦ elim (Option-cases (find (is_row_of g) rows)) [
      | inr (r, s) ↦ rw (n, s, find-append-some (is_row_of g) rows (new_row h e ∷ []) r s) refl
      | inl s ↦
          rw (n, s, find-append-none (is_row_of g) rows (new_row h e ∷ []) s)
            (single (same_group g h))
    ]
  ]
    where
      single : (b : Bool) → column_value f (if b then some (new_row h e) else none) ≡ 0
      single true = zero_at h e
      single false = refl

  is_row_of-found :
      (g : Group) (e : ℕ) (rows : List HeartbeatDaily)
      → (r : HeartbeatDaily) × (find (is_row_of g) (get_or_create g e rows) ≡ some r)
  unfolding get_or_create find
  is_row_of-found g e rows = elim (Option-cases (find (is_row_of g) rows)) [
    | inr (r, s) ↦ (
      r,
      rw (any_row-found (is_row_of g) (is_row_of g) rows r s (find-test (is_row_of g) rows r s)) s,
    )
    | inl s ↦ (
      new_row g e,
      rw (any_row-eq-false (is_row_of g) rows s)
          (find-append-none (is_row_of g) rows (new_row g e ∷ []) s ∙ rw (same_group_refl g) refl),
    )
  ]

  module _ (u : HeartbeatDaily → HeartbeatDaily) (n : ℕ)
      (adds : (r : HeartbeatDaily) → f (u r) ≡ f r + n)
      (same_key : (g : Group) (r : HeartbeatDaily) → is_row_of g (u r) ≡ is_row_of g r) where
    kept :
        (g h : Group) (r : HeartbeatDaily) (b : Bool)
        → is_row_of g (if b then u r else r) ≡ is_row_of g r
    kept g h r true = same_key g r
    kept g h r false = refl

    pub column_of-own :
        (g : Group) (e : ℕ) (rows : List HeartbeatDaily)
        → column_of f g (update_where (is_row_of g) u (get_or_create g e rows))
          ≡ column_of f g rows + n
    column_of-own g e rows =
        let (r, s) = is_row_of-found g e rows in
        let at_row : column_of f g (get_or_create g e rows) ≡ f r = ap (column_value f) s in
        ap (column_value f) (
          find-update_where (is_row_of g) (is_row_of g) u (get_or_create g e rows)
            (λ x. kept g g x (is_row_of g x)))
        ∙ ap (λ o. column_value f (Option.map (written (is_row_of g) u) o)) s
        ∙ rw (find-test (is_row_of g) (get_or_create g e rows) r s) (adds r)
        ∙ ap (λ k. k + n) (sym at_row ∙ column_of-get_or_create g g e rows)

    pub column_of-other :
        (g h : Group) (e : ℕ) (rows : List HeartbeatDaily)
        → same_group g h ≡ false
        → column_of f g (update_where (is_row_of h) u (get_or_create h e rows)) ≡ column_of f g rows
    column_of-other g h e rows d =
        ap (column_value f) (
          find-update_where (is_row_of g) (is_row_of h) u (get_or_create h e rows)
            (λ x. kept g h x (is_row_of h x)))
        ∙ spared (find (is_row_of g) (get_or_create h e rows)) refl
        ∙ column_of-get_or_create g h e rows
      where
        apart : (r : HeartbeatDaily) → is_row_of g r ≡ true → is_row_of h r ≡ false
        apart r t = elim (Bool-cases (is_row_of h r)) [
          | inr o ↦ o
          | inl o ↦
              let same : g ≡ h = same_group-eq g _ t ∙ sym (same_group-eq h _ o) in
              let clash : true ≡ false = sym (same_group_refl g) ∙ ap (same_group g) same ∙ d in cc
        ]

        spared :
            (o : Option HeartbeatDaily)
            → find (is_row_of g) (get_or_create h e rows) ≡ o
            → column_value f (Option.map (written (is_row_of h) u) o) ≡ column_value f o
        spared none p = refl
        spared (some r) p = rw (apart r (find-test (is_row_of g) (get_or_create h e rows) r p)) refl

-- ===== src/Heartbeat/Model/Windows.antt =====
-- apps/heartbeat/models.py: the excluded ranges against the windows that they are made of.
use smallstack_tabler.Prelude.{
  ℕ, suc, ◌≤◌, ◌<◌, max, ◌≡◌, refl, ap, ◌∙◌, String, Bool, true, false, ◌&&◌, ◌||◌, List, [], ◌∷◌,
  map, arith, leb→le, ltb, leb, str_eq, any_row, filter_rows, count_where, Bool-cases, inl, inr,
  if◌then◌else◌,
}
use smallstack_tabler.Heartbeat.Model.{
  MaintenanceWindow, Span, contains, is_overlapping, insert_by_start, sort_by_start, clip,
  merge_from, merge, get_excluded_ranges,
}

-- Spans in the order of their starts, none before `lo`.
abbrev Ascending : ℕ → List Span → Type 0
Ascending lo [] = Unit
Ascending lo (x ∷ xs) = (lo ≤ x.0) × Ascending x.0 xs

-- A window that counts at a time: the monitor's, excluded, and under way.
abbrev pub is_excluding : ℕ → String → MaintenanceWindow → Bool
is_excluding t key w =
    str_eq w.monitor_key key && (w.exclude_from_sla && (leb w.start t && ltb t w.end))

abbrev pub once : Bool → ℕ
once true = 1
once false = 0

before_all :
    (t lo : ℕ) (xs : List Span) → t < lo → Ascending lo xs → any_row (contains t) xs ≡ false
unfolding any_row
before_all t lo [] h a = refl
before_all t lo (x ∷ xs) h a = ground (arith, before_all t x.0 xs)

lower : (lo hi : ℕ) (xs : List Span) → lo ≤ hi → Ascending hi xs → Ascending lo xs
lower lo hi [] h a = tt
lower lo hi (x ∷ xs) h a = (omega (arith, a.0), a.1)

covers :
    (t a b s e : ℕ) (r : Bool)
    → a ≤ s
    → leb s b ≡ true
    → (contains t (a, max b e) || r) ≡ (contains t (a, b) || (contains t (s, e) || r))
covers t a b s e r h k = ground arith

splits :
    (t a b s e : ℕ) (r : Bool)
    → leb s b ≡ false
    → (t < s → r ≡ false)
    → (if contains t (a, b)
        then suc (once (contains t (s, e) || r))
        else once (contains t (s, e) || r))
      ≡ once (contains t (a, b) || (contains t (s, e) || r))
splits t a b s e r k h = ground arith

merge_from-once :
    (t : ℕ) (last : Span) (xs : List Span)
    → Ascending last.0 xs
    → count_where (contains t) (merge_from last xs)
      ≡ once (contains t last || any_row (contains t) xs)
unfolding count_where merge_from any_row
merge_from-once t last [] a = ground arith
merge_from-once t last (x ∷ xs) a = elim (Bool-cases (leb x.0 last.1)) [
  | inl j ↦ rw j (
      merge_from-once t (last.0, max last.1 x.1) xs (lower last.0 x.0 xs a.0 a.1)
      ∙ ap once (covers t last.0 last.1 x.0 x.1 (any_row (contains t) xs) a.0 j))
  | inr p ↦ rw p (
      rw (merge_from-once t x xs a.1) (
        splits t last.0 last.1 x.0 x.1 (any_row (contains t) xs) p
          (λ h. before_all t x.0 xs h a.1)))
]

insert_by_start-Ascending :
    (lo : ℕ) (x : Span) (xs : List Span)
    → lo ≤ x.0
    → Ascending lo xs
    → Ascending lo (insert_by_start x xs)
unfolding insert_by_start
insert_by_start-Ascending lo x [] h a = (h, tt)
insert_by_start-Ascending lo x (y ∷ ys) h a = elim (Bool-cases (leb x.0 y.0)) [
  | inl t ↦ rw t (h, (leb→le x.0 y.0 t, a.1))
  | inr f ↦ rw f (a.0, insert_by_start-Ascending y.0 x ys (ground arith) a.1)
]

sort_by_start-Ascending : (xs : List Span) → Ascending 0 (sort_by_start xs)
unfolding sort_by_start
sort_by_start-Ascending [] = tt
sort_by_start-Ascending (x ∷ xs) =
    insert_by_start-Ascending 0 x (sort_by_start xs) (omega arith) (sort_by_start-Ascending xs)

map-clip-Ascending :
    (range : Span) (lo : ℕ) (xs : List Span)
    → Ascending lo xs
    → Ascending (max lo range.0) (map (clip range) xs)
map-clip-Ascending range lo [] a = tt
map-clip-Ascending range lo (x ∷ xs) a = (omega (arith, a.0), map-clip-Ascending range x.0 xs a.1)

any_row-insert_by_start :
    (p : Span → Bool) (x : Span) (xs : List Span)
    → any_row p (insert_by_start x xs) ≡ (p x || any_row p xs)
unfolding any_row insert_by_start
any_row-insert_by_start p x [] = refl
any_row-insert_by_start p x (y ∷ ys) = ground (arith, any_row-insert_by_start p x ys)

any_row-sort_by_start :
    (p : Span → Bool) (xs : List Span) → any_row p (sort_by_start xs) ≡ any_row p xs
unfolding any_row sort_by_start
any_row-sort_by_start p [] = refl
any_row-sort_by_start p (x ∷ xs) =
    any_row-insert_by_start p x (sort_by_start xs) ∙ ap (λ r. p x || r) (any_row-sort_by_start p xs)

-- Within the range, clipping a span changes nothing.
any_row-clip :
    (t : ℕ) (range : Span) (xs : List Span)
    → contains t range ≡ true
    → any_row (contains t) (map (clip range) xs) ≡ any_row (contains t) xs
unfolding any_row
any_row-clip t range [] h = refl
any_row-clip t range (x ∷ xs) h = ground (arith, any_row-clip t range xs)

-- A window that does not overlap the range contains no time of it.
any_row-overlapping :
    (t : ℕ) (range : Span) (key : String) (ws : List MaintenanceWindow)
    → contains t range ≡ true
    → any_row (contains t) (map (λ w. (w.start, w.end)) (filter_rows (is_overlapping range key) ws))
      ≡ any_row (is_excluding t key) ws
unfolding any_row filter_rows
any_row-overlapping t range key [] h = refl
any_row-overlapping t range key (w ∷ ws) h = ground (arith, any_row-overlapping t range key ws)

merge-once :
    (t : ℕ) (lo : ℕ) (xs : List Span)
    → Ascending lo xs
    → count_where (contains t) (merge xs) ≡ once (any_row (contains t) xs)
unfolding merge count_where any_row
merge-once t lo [] a = refl
merge-once t lo (x ∷ xs) a = merge_from-once t x xs a.1

-- At a time of the range, the merged ranges that contain it number one if some window of the monitor
-- that counts for the service level is under way, and none otherwise: the ranges are disjoint and
-- cover exactly those windows, however these overlap.
pub get_excluded_ranges-once :
    (t : ℕ) (range : Span) (key : String) (ws : List MaintenanceWindow)
    → contains t range ≡ true
    → count_where (contains t) (get_excluded_ranges range key ws)
      ≡ once (any_row (is_excluding t key) ws)
unfolding get_excluded_ranges
get_excluded_ranges-once t range key ws h =
    let spans =
      map (λ (w : MaintenanceWindow). (w.start, w.end))
        (filter_rows (is_overlapping range key) ws) in
    merge-once t (max 0 range.0) (map (clip range) (sort_by_start spans))
      (map-clip-Ascending range 0 (sort_by_start spans) (sort_by_start-Ascending spans))
    ∙ ap once (
        any_row-clip t range (sort_by_start spans) h
        ∙ any_row-sort_by_start (contains t) spans
        ∙ any_row-overlapping t range key ws h)

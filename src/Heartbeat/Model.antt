-- ===== src/Heartbeat/Model.antt =====
-- apps/heartbeat/models.py: maintenance windows, and the merged ranges that they take out of the
-- service level arithmetic. Times are microseconds.
pub mod Windows
use smallstack_tabler.Prelude.{
  ℕ, ◌+◌, ◌-◌, ◌/◌, max, min, String, Bool, true, false, ◌&&◌, Option, none, some, List, [], ◌∷◌,
  map, ltb, leb, str_eq, second, filter_rows, any_row, find, if◌then◌else◌,
}

pub record MaintenanceWindow : Type 0 where
  pub id : ℕ
  pub monitor_key : String
  pub start : ℕ
  pub end : ℕ
  pub exclude_from_sla : Bool

-- A half-open span of time.
abbrev pub Span : Type 0
Span = ℕ × ℕ

abbrev pub contains : ℕ → Span → Bool
contains t (s, e) = leb s t && ltb t e

-- `is_in_maintenance`.
unfoldable pub is_in_maintenance : ℕ → String → List MaintenanceWindow → Bool
is_in_maintenance t key ws =
    any_row (λ w. str_eq w.monitor_key key && (leb w.start t && ltb t w.end)) ws

-- The filter of `get_excluded_ranges`.
abbrev pub is_overlapping : Span → String → MaintenanceWindow → Bool
is_overlapping (from, to) key w =
    str_eq w.monitor_key key && (w.exclude_from_sla && (ltb w.start to && ltb from w.end))

-- `order_by("start").values_list("start", "end")`.
unfoldable pub insert_by_start : Span → List Span → List Span
insert_by_start x [] = x ∷ []
insert_by_start x (y ∷ ys) =
    let rest = insert_by_start x ys in if leb x.0 y.0 then x ∷ y ∷ ys else y ∷ rest

unfoldable pub sort_by_start : List Span → List Span
sort_by_start [] = []
sort_by_start (x ∷ xs) = insert_by_start x (sort_by_start xs)

-- `s = max(ws, range_start)`, `e = min(we, range_end)`.
abbrev pub clip : Span → Span → Span
clip (from, to) (s, e) = (max s from, min e to)

-- The loop: `last` is `merged[-1]`.
unfoldable pub merge_from : Span → List Span → List Span
merge_from last [] = last ∷ []
merge_from last (x ∷ xs) =
    let joined = merge_from (last.0, max last.1 x.1) xs in
    let apart = merge_from x xs in if leb x.0 last.1 then joined else last ∷ apart

unfoldable pub merge : List Span → List Span
merge [] = []
merge (x ∷ xs) = merge_from x xs

unfoldable pub get_excluded_ranges : Span → String → List MaintenanceWindow → List Span
get_excluded_ranges range key ws = merge (
    map (clip range)
      (sort_by_start (map (λ w. (w.start, w.end)) (filter_rows (is_overlapping range key) ws))))

-- ===== src/Heartbeat/Services/Counted.antt =====
-- apps/heartbeat/services.py: what a group of a batch adds, beat by beat.
use smallstack_tabler.Prelude.{
  ℕ, suc, ◌+◌, ◌≡◌, refl, sym, ap, ◌∙◌, Bool, true, false, not, ◌&&◌, List, [], ◌∷◌, arith, leb,
  ◌==◌, str_eq, count_where, any_row, if◌then◌else◌,
}
use smallstack_tabler.Heartbeat.Model.{Span, contains}
use smallstack_tabler.Heartbeat.Model.Windows.{get_excluded_ranges-once, once}
use smallstack_tabler.Heartbeat.Services.{
  Heartbeat, State, Settings, CalendarLaw, Group, is_ok, in_group, in_batch, excluded_of,
  count_excluded, sla_ok, sla_fail, excluded_total, is_counted,
}

any_row-once :
    (p : Span → Bool) (rs : List Span) (b : Bool) → count_where p rs ≡ once b → any_row p rs ≡ b
unfolding any_row count_where
any_row-once p rs b h = positive rs ∙ ap (leb 1) h ∙ unit b
  where
    positive : (xs : List Span) → any_row p xs ≡ leb 1 (count_where p xs)
    positive [] = refl
    positive (x ∷ xs) = ground (arith, positive xs)

    unit : (b : Bool) → leb 1 (once b) ≡ b
    unit true = refl
    unit false = refl

-- A time of a day is in one of its excluded ranges at most.
in_one_range :
    (c : Settings) (g : Group) (s : State) (t : ℕ)
    → contains t (c.day_bounds g.1) ≡ true
    → count_where (contains t) (excluded_of c g s) ≡ once (any_row (contains t) (excluded_of c g s))
in_one_range c g s t h =
    let e = get_excluded_ranges-once t (c.day_bounds g.1) g.0 s.windows h in
    e ∙ ap once (sym (any_row-once (contains t) (excluded_of c g s) _ e))

-- The loop over the ranges, one beat at a time.
count_excluded-cons :
    (p : Heartbeat → Bool) (c : Settings) (g : Group) (rs : List Span) (h : Heartbeat)
    (hs : List Heartbeat)
    → count_excluded p c g rs (h ∷ hs)
      ≡ (if in_batch c g h && p h then count_where (contains h.timestamp) rs else 0)
        + count_excluded p c g rs hs
unfolding count_excluded count_where
count_excluded-cons p c g [] h hs = ground arith
count_excluded-cons p c g (r ∷ rs) h hs =
    each (in_batch c g h) (contains h.timestamp r) (p h) _ _ _ _ (count_excluded-cons p c g rs h hs)
  where
    each :
        (b i q : Bool) (n m k x : ℕ)
        → x ≡ (if b && q then m else 0) + k
        → (if b && (i && q) then suc n else n) + x
          ≡ (if b && q then (if i then suc m else m) else 0) + (n + k)
    each b i q n m k x e = ground arith

step :
    (b q i : Bool) (m x n : ℕ)
    → (b ≡ true → m ≡ once i)
    → x ≡ n
    → (if b && q then m else 0) + x ≡ (if (b && q) && i then suc n else n)
step false q i m x n k e = ground arith
step true false i m x n k e = ground arith
step true true true m x n k e = ground (arith, k refl)
step true true false m x n k e = ground (arith, k refl)

abbrev pub in_range : Settings → Group → State → Heartbeat → Bool
in_range c g s h = any_row (contains h.timestamp) (excluded_of c g s)

count_excluded-eq :
    (p : Heartbeat → Bool) (c : Settings) (g : Group) (s : State) (old : List Heartbeat)
    → count_excluded p c g (excluded_of c g s) old
      ≡ count_where (λ h. (in_batch c g h && p h) && in_range c g s h) old
unfolding count_where count_excluded
count_excluded-eq p c g s [] = empty (excluded_of c g s)
  where
    empty : (rs : List Span) → count_excluded p c g rs [] ≡ 0
    empty [] = refl
    empty (r ∷ rs) = omega (arith, empty rs)
count_excluded-eq p c g s (h ∷ hs) =
    count_excluded-cons p c g (excluded_of c g s) h hs
    ∙ step (in_batch c g h) (p h) (in_range c g s h) _ _ _
        (λ b. in_one_range c g s h.timestamp (ground arith)) (count_excluded-eq p c g s hs)

-- The date of a beat and the bounds of the day select the same beats.
pub in_group-eq :
    (c : Settings) (g : Group) (h : Heartbeat) → CalendarLaw c → in_group c g h ≡ in_batch c g h
in_group-eq c g h law =
    ap (λ b. str_eq g.0 h.monitor_key && b) (flip g.1 (c.date_of h.timestamp) ∙ law h.timestamp g.1)
  where
    flip : (a b : ℕ) → (a == b) ≡ (b == a)
    flip a b = ground arith

-- The beats of a group, inside the excluded ranges and outside of them.
count_split :
    (p : Heartbeat → Bool) (c : Settings) (g : Group) (s : State) (old : List Heartbeat)
    → CalendarLaw c
    → count_where (λ h. in_group c g h && p h) old
      ≡ count_where (λ h. (in_batch c g h && p h) && in_range c g s h) old
        + count_where (λ h. is_counted c g s h && p h) old
unfolding count_where is_counted
count_split p c g s [] law = refl
count_split p c g s (h ∷ hs) law =
    both (str_eq g.0 h.monitor_key) _ _ (in_range c g s h) (p h) _ _ _ (same_date g.1)
      (count_split p c g s hs law)
  where
    same_date : (d : ℕ) → (d == c.date_of h.timestamp) ≡ contains h.timestamp (c.day_bounds d)
    same_date d = flip d (c.date_of h.timestamp) ∙ law h.timestamp d
      where
        flip : (a b : ℕ) → (a == b) ≡ (b == a)
        flip a b = ground arith

    both :
        (k d b i q : Bool) (n m l : ℕ)
        → d ≡ b
        → n ≡ m + l
        → (if (k && d) && q then suc n else n)
          ≡ (if ((k && b) && q) && i then suc m else m)
            + (if ((k && b) && not i) && q then suc l else l)
    both k d b i q n m l e f = ground arith

-- What a group adds to the ok and to the failed beats of its day: its beats that count.
pub sla_ok-eq :
    (c : Settings) (g : Group) (s : State) (old : List Heartbeat)
    → CalendarLaw c
    → sla_ok c g s old ≡ count_where (λ h. is_counted c g s h && is_ok h) old
unfolding sla_ok
sla_ok-eq c g s old law =
    omega (arith, count_split is_ok c g s old law, count_excluded-eq is_ok c g s old)

total_split :
    (c : Settings) (g : Group) (s : State) (old : List Heartbeat)
    → count_where (λ h. (in_batch c g h && true) && in_range c g s h) old
      ≡ count_where (λ h. (in_batch c g h && is_ok h) && in_range c g s h) old
        + count_where (λ h. (in_batch c g h && not (is_ok h)) && in_range c g s h) old
unfolding count_where
total_split c g s [] = refl
total_split c g s (h ∷ hs) =
    parts (in_batch c g h) (is_ok h) (in_range c g s h) _ _ _ (total_split c g s hs)
  where
    parts :
        (b q i : Bool) (n m l : ℕ)
        → n ≡ m + l
        → (if (b && true) && i then suc n else n)
          ≡ (if (b && q) && i then suc m else m) + (if (b && not q) && i then suc l else l)
    parts b q i n m l e = ground arith

pub sla_fail-eq :
    (c : Settings) (g : Group) (s : State) (old : List Heartbeat)
    → CalendarLaw c
    → sla_fail c g s old ≡ count_where (λ h. is_counted c g s h && not (is_ok h)) old
unfolding sla_fail excluded_total
sla_fail-eq c g s old law = omega (
  arith,
  count_split (λ h. not (is_ok h)) c g s old law,
  count_excluded-eq is_ok c g s old,
  count_excluded-eq (λ h. true) c g s old,
  total_split c g s old,
)

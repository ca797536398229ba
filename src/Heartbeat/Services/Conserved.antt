-- ===== src/Heartbeat/Services/Conserved.antt =====
-- apps/heartbeat/services.py: the counts of a day across a pruning.
use smallstack_tabler.Prelude.{
  ℕ, suc, ◌+◌, ◌≡◌, refl, sym, ap, ◌∙◌, subst, Bool, true, false, not, ◌&&◌, ◌||◌, List, [], ◌∷◌,
  arith, any_row, filter_rows, count_where, Unique, Bool-cases, inl, inr, if◌then◌else◌,
}
use smallstack_tabler.Heartbeat.Services.{
  Heartbeat, HeartbeatDaily, State, Settings, CalendarLaw, Group, same_group, group_of, groups,
  in_group, is_ok, is_old, new_row, accumulate, sla_ok, sla_fail, excluded_total, fold_group,
  fold_groups, prune_old_heartbeats, is_counted, non_maintenance_ok, non_maintenance_fail,
  column_of, day_ok, day_observed,
}
use smallstack_tabler.Heartbeat.Services.Counted.{sla_ok-eq, sla_fail-eq, in_group-eq}
use smallstack_tabler.Heartbeat.Services.Folded.{
  same_group-eq, same_group_refl, column_of-own, column_of-other,
}

any_row-groups :
    (c : Settings) (g : Group) (hs : List Heartbeat)
    → any_row (same_group g) (groups c hs) ≡ any_row (in_group c g) hs
unfolding any_row groups
any_row-groups c g [] = refl
any_row-groups c g (h ∷ hs) =
    elim (Bool-cases (any_row (same_group (group_of c h)) (groups c hs))) [
      | inr n ↦ rw n (ap (λ r. same_group g (group_of c h) || r) (any_row-groups c g hs))
      | inl t ↦ elim (Bool-cases (same_group g (group_of c h))) [
        | inr n ↦ rw (t, n) (any_row-groups c g hs)
        | inl e ↦
            rw (t, e)
              (subst (λ x. any_row (same_group x) (groups c hs) ≡ true)
                (sym (same_group-eq g (group_of c h) e)) t)
      ]
    ]

Unique-groups : (c : Settings) (hs : List Heartbeat) → Unique same_group (groups c hs)
unfolding groups
Unique-groups c [] = tt
Unique-groups c (h ∷ hs) = elim (Bool-cases (any_row (same_group (group_of c h)) (groups c hs))) [
  | inr n ↦ rw n (n, Unique-groups c hs)
  | inl t ↦ rw t (Unique-groups c hs)
]

-- A column to which each group of a batch adds a number.
module _ (c : Settings) (now : ℕ) (old : List Heartbeat) (s : State) (f : HeartbeatDaily → ℕ)
    (add : Group → ℕ) (zero_at : (g : Group) (e : ℕ) → f (new_row g e) ≡ 0)
    (adds : (g : Group) (e : ℕ) (ts : List ℕ) (r : HeartbeatDaily)
      → f (accumulate c (sla_ok c g s old) (sla_fail c g s old) (excluded_total c g s old) e ts r)
        ≡ f r + add g) where
  fold_group-own :
      (h : Group) (rows : List HeartbeatDaily)
      → column_of f h (fold_group c now old s h rows) ≡ column_of f h rows + add h
  unfolding fold_group accumulate
  fold_group-own h rows = column_of-own f zero_at _ (add h) (adds h _ _) (λ k r. refl) h _ rows

  sum_own :
      (h : Group) (rows : List HeartbeatDaily) (b : Bool) (n : ℕ)
      → b ≡ false
      → n ≡ column_of f h (fold_group c now old s h rows) + (if b then add h else 0)
      → n ≡ column_of f h rows + add h
  sum_own h rows true n e q = cc
  sum_own h rows false n e q = omega (arith, fold_group-own h rows, q)

  column_of-fold_groups :
      (g : Group) (gs : List Group) (rows : List HeartbeatDaily)
      → Unique same_group gs
      → column_of f g (fold_groups c now old s gs rows)
        ≡ column_of f g rows + (if any_row (same_group g) gs then add g else 0)
  unfolding fold_groups fold_group any_row accumulate
  column_of-fold_groups g [] rows u = omega arith
  column_of-fold_groups g (h ∷ gs) rows u = elim (Bool-cases (same_group g h)) [
    | inr n ↦ rw n (
        column_of-fold_groups g gs (fold_group c now old s h rows) u.1
        ∙ ap (λ k. k + (if any_row (same_group g) gs then add g else 0))
            (column_of-other f zero_at _ (add h) (adds h _ _) (λ k r. refl) g h _ rows n))
    | inl e ↦
        subst
          (λ x.
            column_of f x (fold_groups c now old s gs (fold_group c now old s h rows))
            ≡ column_of f x rows
              + (if same_group x h || any_row (same_group x) gs then add x else 0))
          (sym (same_group-eq g h e))
          (rw (same_group_refl h) (
            sum_own h rows (any_row (same_group h) gs) _ u.0
              (column_of-fold_groups h gs (fold_group c now old s h rows) u.1)))
  ]

-- A day without a group in the batch has no beat in it that counts.
no_group :
    (p : Heartbeat → Bool) (c : Settings) (g : Group) (s : State) (hs : List Heartbeat)
    → CalendarLaw c
    → any_row (in_group c g) hs ≡ false
    → count_where (λ h. is_counted c g s h && p h) hs ≡ 0
unfolding any_row count_where is_counted
no_group p c g s [] law n = refl
no_group p c g s (h ∷ hs) law n = ground (arith, in_group-eq c g h law, no_group p c g s hs law)

-- A table is what a filter leaves of it and what the filter takes.
count_filtered :
    (p q : Heartbeat → Bool) (hs : List Heartbeat)
    → count_where p (filter_rows q hs) + count_where p (filter_rows (λ h. not (q h)) hs)
      ≡ count_where p hs
unfolding count_where filter_rows
count_filtered p q [] = omega arith
count_filtered p q (h ∷ hs) = ground (arith, count_filtered p q hs)

-- What the summary and the beats that remain count of a day.
conserved :
    (p : Heartbeat → Bool) (c : Settings) (now : ℕ) (s : State) (g : Group) (f : HeartbeatDaily → ℕ)
    (add : Group → ℕ)
    → CalendarLaw c
    → ((h : Group) (e : ℕ) → f (new_row h e) ≡ 0)
    → ((h : Group) (e : ℕ) (ts : List ℕ) (r : HeartbeatDaily)
        → f (
            accumulate c
              (sla_ok c h s (filter_rows (is_old c now) s.heartbeats))
              (sla_fail c h s (filter_rows (is_old c now) s.heartbeats))
              (excluded_total c h s (filter_rows (is_old c now) s.heartbeats))
              e
              ts
              r)
          ≡ f r + add h)
    → add g ≡ count_where (λ h. is_counted c g s h && p h) (filter_rows (is_old c now) s.heartbeats)
    → column_of f g (
          fold_groups c now
            (filter_rows (is_old c now) s.heartbeats)
            s
            (groups c (filter_rows (is_old c now) s.heartbeats))
            s.dailies)
        + count_where
            (λ h. is_counted c g s h && p h)
            (filter_rows (λ h. not (is_old c now h)) s.heartbeats)
      ≡ column_of f g s.dailies + count_where (λ h. is_counted c g s h && p h) s.heartbeats
conserved p c now s g f add law z a e =
    let old = filter_rows (is_old c now) s.heartbeats in
    let kept = filter_rows (λ h. not (is_old c now h)) s.heartbeats in
    let folded : column_of f g (fold_groups c now old s (groups c old) s.dailies)
        ≡ column_of f g s.dailies + (if any_row (same_group g) (groups c old) then add g else 0) =
      column_of-fold_groups c now old s f add z a g (groups c old) s.dailies
        (Unique-groups c old) in
    let parts = count_filtered (λ h. is_counted c g s h && p h) (is_old c now) s.heartbeats in
    elim (Bool-cases (any_row (same_group g) (groups c old))) [
      | inl t ↦ omega (arith, (rw t at folded), parts, e)
      | inr n ↦ omega (
        arith,
        (rw n at folded),
        parts,
        no_group p c g s old law (sym (any_row-groups c g old) ∙ n),
      )
    ]

counted_both :
    (c : Settings) (g : Group) (s : State) (hs : List Heartbeat)
    → count_where (λ h. is_counted c g s h && true) hs
      ≡ count_where (λ h. is_counted c g s h && is_ok h) hs
        + count_where (λ h. is_counted c g s h && not (is_ok h)) hs
unfolding count_where
counted_both c g s [] = omega arith
counted_both c g s (h ∷ hs) = parts (is_counted c g s h) (is_ok h) _ _ _ (counted_both c g s hs)
  where
    parts :
        (b q : Bool) (n m l : ℕ)
        → n ≡ m + l
        → (if b && true then suc n else n)
          ≡ (if b && q then suc m else m) + (if b && not q then suc l else l)
    parts b q n m l e = ground arith

accumulate-ok :
    (c : Settings) (good bad excluded e : ℕ) (ts : List ℕ) (r : HeartbeatDaily)
    → (accumulate c good bad excluded e ts r).ok_count ≡ r.ok_count + good
unfolding accumulate
accumulate-ok c good bad excluded e ts r = refl

accumulate-observed :
    (c : Settings) (good bad excluded e : ℕ) (ts : List ℕ) (r : HeartbeatDaily)
    → (accumulate c good bad excluded e ts r).ok_count
        + (accumulate c good bad excluded e ts r).fail_count
      ≡ (r.ok_count + r.fail_count) + (good + bad)
unfolding accumulate
accumulate-observed c good bad excluded e ts r = omega arith

-- If the dates and the bounds of days are of one time zone, a pruning at any time changes neither the
-- ok beats nor the observed beats of any monitor and day, as the sum of the daily summary and of the
-- raw beats outside the excluded maintenance: what the pruned beats counted is in the summary.
pub prune_old_heartbeats-day_counts :
    (c : Settings) (now : ℕ) (s : State) (g : Group)
    → CalendarLaw c
    → (day_ok c g (prune_old_heartbeats c now s).1 ≡ day_ok c g s)
      × (day_observed c g (prune_old_heartbeats c now s).1 ≡ day_observed c g s)
unfolding prune_old_heartbeats day_ok day_observed non_maintenance_ok non_maintenance_fail
    is_counted
prune_old_heartbeats-day_counts c now s g law =
    elim (Bool-cases (any_row (is_old c now) s.heartbeats)) [
      | inr n ↦ rw n (refl, refl)
      | inl t ↦ rw t (good, seen)
    ]
  where
    old : List Heartbeat
    old = filter_rows (is_old c now) s.heartbeats

    kept : List Heartbeat
    kept = filter_rows (λ h. not (is_old c now h)) s.heartbeats

    rows : List HeartbeatDaily
    rows = fold_groups c now old s (groups c old) s.dailies

    good :
        column_of (λ r. r.ok_count) g rows + count_where (λ h. is_counted c g s h && is_ok h) kept
        ≡ column_of (λ r. r.ok_count) g s.dailies
          + count_where (λ h. is_counted c g s h && is_ok h) s.heartbeats
    good =
        conserved is_ok c now s g (λ r. r.ok_count) (λ h. sla_ok c h s old) law (λ h e. refl)
          (λ h e ts r. accumulate-ok c _ _ _ e ts r) (sla_ok-eq c g s old law)

    seen :
        column_of (λ r. r.ok_count + r.fail_count) g rows
          + (count_where (λ h. is_counted c g s h && is_ok h) kept
              + count_where (λ h. is_counted c g s h && not (is_ok h)) kept)
        ≡ column_of (λ r. r.ok_count + r.fail_count) g s.dailies
          + (count_where (λ h. is_counted c g s h && is_ok h) s.heartbeats
              + count_where (λ h. is_counted c g s h && not (is_ok h)) s.heartbeats)
    seen = omega (
      arith,
      conserved (λ h. true) c now s g (λ r. r.ok_count + r.fail_count)
          (λ h. sla_ok c h s old + sla_fail c h s old) law (λ h e. omega arith)
          (λ h e ts r. accumulate-observed c _ _ _ e ts r)
          (omega
            (arith, sla_ok-eq c g s old law, sla_fail-eq c g s old law, counted_both c g s old)),
      counted_both c g s kept,
      counted_both c g s s.heartbeats,
    )

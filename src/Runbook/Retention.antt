-- ===== src/Runbook/Retention.antt =====
-- apps/runbook/retention.py: which versions are pruned, and which documents expire.
pub mod Pruned
pub mod Sweep
use smallstack_tabler.Prelude.{
  ℕ, zero, suc, ◌+◌, ◌-◌, ◌*◌, String, Bool, true, false, not, ◌&&◌, ◌||◌, Option, none, some, List,
  [], ◌∷◌, ◌++◌, ◌==◌, ltb, leb, str_eq, same_option, is_none, seconds, length, any_row,
  filter_rows, count_where, ℤ, pos, negsuc, if◌then◌else◌,
}
use smallstack_tabler.Runbook.Model.{
  Runbook, Document, DocumentVersion, document_expired, State, Env, versions_of,
}
use smallstack_tabler.Runbook.Permissions.{runbook_at}
use smallstack_tabler.Runbook.Service.{emit, write_document}
use smallstack_tabler.Runbook.Documents.{put_away, remove_document}

-- `RetentionPolicy`.
pub record RetentionPolicy : Type 0 where
  pub max_versions : Option ℤ
  pub max_version_age_days : Option ℤ
  pub ttl_days : Option ℤ
  pub on_expire : String

-- The settings of apps/runbook/conf.py, which bound generated documents only.
pub record Defaults : Type 0 where
  pub generated_max_versions : Option ℤ
  pub generated_max_version_age_days : Option ℤ
  pub generated_ttl_days : Option ℤ

abbrev pub if_generated : Bool → Option ℤ → Option ℤ
if_generated true v = v
if_generated false v = none

-- `resolve`: the document's value, its runbook's, the global one.
unfoldable pub resolve_value :
    Option ℤ → Option Runbook → (Runbook → Option ℤ) → Option ℤ → Option ℤ
resolve_value (some v) rb field global = some v
resolve_value none none field global = global
resolve_value none (some r) field global = elim (field r) [ none ↦ global | some v ↦ some v ]

abbrev pub or_archive : String → String
or_archive t = if str_eq t "" then "archive" else t

unfoldable pub effective_policy : Defaults → Document → State → RetentionPolicy
effective_policy c d s =
    let rb = runbook_at d.runbook s in
    let gen = d.is_generated in
    record {
      max_versions =
          resolve_value d.max_versions rb (λ r. r.default_max_versions)
            (if_generated gen c.generated_max_versions);
      max_version_age_days =
          resolve_value d.max_version_age_days rb (λ r. r.default_max_version_age_days)
            (if_generated gen c.generated_max_version_age_days);
      ttl_days =
          resolve_value d.ttl_days rb (λ r. r.default_ttl_days)
            (if_generated gen c.generated_ttl_days);
      on_expire = or_archive d.on_expire;
    }

-- `order_by("-version")`.
unfoldable pub insert_newest : DocumentVersion → List DocumentVersion → List DocumentVersion
insert_newest v [] = v ∷ []
insert_newest v (x ∷ xs) =
    let rest = insert_newest v xs in if ltb x.version v.version then v ∷ x ∷ xs else x ∷ rest

unfoldable pub newest_first : List DocumentVersion → List DocumentVersion
newest_first [] = []
newest_first (v ∷ vs) = insert_newest v (newest_first vs)

unfoldable pub drop {ℓ} : {A : Type ℓ} → ℕ → List A → List A
drop zero xs = xs
drop (suc n) [] = []
drop (suc n) (x ∷ xs) = drop n xs

-- `xs[n:]`: from the end for a negative number.
unfoldable pub slice_from {ℓ} : {A : Type ℓ} → ℤ → List A → List A
slice_from (pos n) xs = drop n xs
slice_from (negsuc n) xs = drop (length xs - suc n) xs

abbrev pub days : ℕ → ℕ
days n = seconds (n * 86400)

-- `t < now - timedelta(days=d)`.
unfoldable pub is_before : ℕ → ℕ → ℤ → Bool
is_before t now (pos d) = ltb (t + days d) now
is_before t now (negsuc d) = ltb t (now + days (suc d))

-- The keys that the two axes doom among the rows of a document.
unfoldable pub is_over_count : Option ℤ → List DocumentVersion → ℕ → Bool
is_over_count none rows i = false
is_over_count (some n) rows i = any_row (λ v. v.id == i) (slice_from n (newest_first rows))

unfoldable pub is_over_age : Option ℤ → ℕ → List DocumentVersion → ℕ → Bool
is_over_age none now rows i = false
is_over_age (some n) now rows i = any_row (λ v. (v.id == i) && is_before v.created_at now n) rows

-- `doomed`, without the head.
unfoldable pub is_doomed : RetentionPolicy → ℕ → Document → List DocumentVersion → ℕ → Bool
is_doomed p now d rows i =
    (is_over_count p.max_versions rows i || is_over_age p.max_version_age_days now rows i)
    && not (same_option d.current_version i)

-- `prune_versions`, with the number of the rows that went. Without a limit nothing is doomed.
unfoldable pub prune_versions : Env → Defaults → Document → State → ℕ × State
prune_versions env c d s =
    let p = effective_policy c d s in
    let rows = versions_of d.id s.versions in
    (
      count_where (λ v. is_doomed p env.now d rows v.id) s.versions,
      record s { versions = filter_rows (λ v. not (is_doomed p env.now d rows v.id)) s.versions },
    )

unfoldable pub is_past_ttl : Option ℤ → ℕ → Document → Bool
is_past_ttl none now d = false
is_past_ttl (some n) now d = is_before d.updated_at now n

unfoldable pub is_expired : Defaults → ℕ → Document → State → Bool
is_expired c now d s = not d.is_archived && is_past_ttl (effective_policy c d s).ttl_days now d

unfoldable pub expire_document : Env → Defaults → Document → State → State
expire_document env c d s = emit (document_expired d.id) (
    if str_eq (effective_policy c d s).on_expire "delete"
    then remove_document d.id s
    else write_document d.id (put_away env) s)

-- One document of the sweep.
unfoldable pub sweep_one : Env → Defaults → Document → State → (ℕ × ℕ) × State
sweep_one env c d s =
    let (n, t) = prune_versions env c d s in
    if is_expired c env.now d t then ((n, 1), expire_document env c d t) else ((n, 0), t)

unfoldable pub sweep_rows : Env → Defaults → List Document → State → (ℕ × ℕ) × State
sweep_rows env c [] s = ((0, 0), s)
sweep_rows env c (d ∷ ds) s =
    let ((n, e), t) = sweep_one env c d s in
    let ((ns, es), u) = sweep_rows env c ds t in ((n + ns, e + es), u)

-- `run_sweep`: the numbers of pruned versions and of expired documents.
unfoldable pub run_sweep : Env → Defaults → State → (ℕ × ℕ) × State
run_sweep env c s = sweep_rows env c (filter_rows (λ d. not d.is_archived) s.documents) s

-- ===== src/Runbook/Retention/Pruned.antt =====
-- apps/runbook/retention.py: what pruning keeps of a document and of the others.
use smallstack_tabler.Prelude.{
  ℕ, zero, suc, ◌≡◌, refl, sym, ap, ◌∙◌, subst, Bool, true, false, not, ◌&&◌, Option, none, some,
  List, [], ◌∷◌, map, arith, ◌==◌, ==→eq, ==_refl, ℤ, pos, negsuc, find, any_row, filter_rows, All,
  All-map, filter_rows-All, Unique-filter_rows, same_key, All-found, any_row-left_out,
  filter_rows-swap, filter_rows-kept, get_last?, get_last?-filter_rows, Bool-cases, inl, inr,
}
use smallstack_tabler.Runbook.Model.{
  Document, DocumentVersion, State, Env, has_version_id, has_document_id, is_version_of,
  versions_of,
}
use smallstack_tabler.Runbook.Service.{read_head}
use smallstack_tabler.Runbook.Service.Versions.{
  version_id, document_id, last_body, last_body-map, HeadAt, HasHead, IsWf, IsFresh, IsWf-HasHead,
  read_head-last_body,
}
use smallstack_tabler.Runbook.Retention.{
  RetentionPolicy, Defaults, effective_policy, insert_newest, newest_first, drop, slice_from,
  is_before, is_over_count, is_over_age, is_doomed, prune_versions,
}

-- A key that no row has is not among the rows in another order, or among some of them.
any_row-insert_newest :
    (p : DocumentVersion → Bool) (v : DocumentVersion) (xs : List DocumentVersion)
    → p v ≡ false
    → any_row p xs ≡ false
    → any_row p (insert_newest v xs) ≡ false
unfolding any_row insert_newest
any_row-insert_newest p v [] h e = ground arith
any_row-insert_newest p v (x ∷ xs) h e = ground (arith, any_row-insert_newest p v xs)

any_row-newest_first :
    (p : DocumentVersion → Bool) (xs : List DocumentVersion)
    → any_row p xs ≡ false
    → any_row p (newest_first xs) ≡ false
unfolding any_row newest_first
any_row-newest_first p [] e = refl
any_row-newest_first p (x ∷ xs) e =
    any_row-insert_newest p x (newest_first xs) (ground arith)
      (any_row-newest_first p xs (ground arith))

any_row-drop :
    (p : DocumentVersion → Bool) (n : ℕ) (xs : List DocumentVersion)
    → any_row p xs ≡ false
    → any_row p (drop n xs) ≡ false
unfolding any_row drop
any_row-drop p zero xs e = e
any_row-drop p (suc n) [] e = refl
any_row-drop p (suc n) (x ∷ xs) e = any_row-drop p n xs (ground arith)

any_row-slice_from :
    (p : DocumentVersion → Bool) (n : ℤ) (xs : List DocumentVersion)
    → any_row p xs ≡ false
    → any_row p (slice_from n xs) ≡ false
unfolding slice_from
any_row-slice_from p (pos n) xs e = any_row-drop p n xs e
any_row-slice_from p (negsuc n) xs e = any_row-drop p _ xs e

any_row-narrower :
    (p q : DocumentVersion → Bool) (xs : List DocumentVersion)
    → any_row p xs ≡ false
    → any_row (λ v. p v && q v) xs ≡ false
unfolding any_row
any_row-narrower p q [] e = refl
any_row-narrower p q (x ∷ xs) e = ground (arith, any_row-narrower p q xs)

-- A key that no row of the document has is not doomed.
is_doomed-foreign :
    (p : RetentionPolicy) (now : ℕ) (d : Document) (rows : List DocumentVersion) (i : ℕ)
    → any_row (λ v. v.id == i) rows ≡ false
    → is_doomed p now d rows i ≡ false
unfolding is_doomed is_over_count is_over_age
is_doomed-foreign p now d rows i e =
    rw (by_count p.max_versions, by_age p.max_version_age_days) refl
  where
    by_count : (o : Option ℤ) → is_over_count o rows i ≡ false
    by_count none = refl
    by_count (some n) =
        any_row-slice_from (λ v. v.id == i) n (newest_first rows)
          (any_row-newest_first (λ v. v.id == i) rows e)

    by_age : (o : Option ℤ) → is_over_age o now rows i ≡ false
    by_age none = refl
    by_age (some n) = any_row-narrower (λ v. v.id == i) (λ v. is_before v.created_at now n) rows e

-- The head is not doomed.
is_doomed-head :
    (p : RetentionPolicy) (now : ℕ) (d : Document) (rows : List DocumentVersion) (i : ℕ)
    → d.current_version ≡ some i
    → is_doomed p now d rows i ≡ false
unfolding is_doomed
is_doomed-head p now d rows i e = rw (e, ==_refl i) (ground arith)

module _ (env : Env) (c : Defaults) (d : Document) (s : State) (w : IsWf s) (h : IsFresh d s) where
  doomed : DocumentVersion → Bool
  doomed v = is_doomed (effective_policy c d s) env.now d (versions_of d.id s.versions) v.id

  abbrev stays : DocumentVersion → Bool
  stays v = not (doomed v)

  -- A version of another document stays.
  foreign-stays :
      (v : DocumentVersion)
      → find (has_version_id v.id) s.versions ≡ some v
      → (v.document == d.id) ≡ false
      → stays v ≡ true
  unfolding doomed versions_of
  foreign-stays v f n = ap not (
      is_doomed-foreign (effective_policy c d s) env.now d (versions_of d.id s.versions) v.id
        (any_row-left_out version_id (is_version_of d.id) s.versions v.id v w.unique_keys f n))

  others-stay :
      (k : ℕ)
      → (d.id == k) ≡ false
      → versions_of k (filter_rows stays s.versions) ≡ versions_of k s.versions
  unfolding versions_of
  others-stay k n =
      filter_rows-swap (is_version_of k) stays s.versions
      ∙ filter_rows-kept stays (filter_rows (is_version_of k) s.versions) (
          filter_rows-All (λ v. stays v ≡ true) (is_version_of k) s.versions
            (All-map _ _ s.versions
              (λ v f q. foreign-stays v f (ground (arith, ==→eq v.document k q)))
              (All-found version_id s.versions w.unique_keys)))

  own-stay :
      versions_of d.id (filter_rows stays s.versions)
      ≡ filter_rows stays (versions_of d.id s.versions)
  unfolding versions_of
  own-stay = filter_rows-swap (is_version_of d.id) stays s.versions

  HeadAt-stays :
      (o : Option ℕ)
      → d.current_version ≡ o
      → HeadAt o d.version (versions_of d.id s.versions)
      → HeadAt o d.version (filter_rows stays (versions_of d.id s.versions))
  unfolding doomed filter_rows
  HeadAt-stays none e r = rw r refl
  HeadAt-stays (some i) e l = record {
    row = l.row;
    last =
        get_last?-filter_rows stays (versions_of d.id s.versions) l.row l.last
          (ap not (is_doomed-head _ env.now d _ l.row.id (e ∙ ap some (sym l.has_key))));
    has_key = l.has_key;
    has_number = l.has_number;
    greatest =
        filter_rows-All _ stays (versions_of d.id s.versions)
          (All-map _ _ _ (λ v g q. g) l.greatest);
  }

  -- The document itself and every other one keeps its head.
  head-stays :
      (x : Document)
      → find (has_document_id x.id) s.documents ≡ some x
      → HasHead s.versions x
      → HasHead (filter_rows stays s.versions) x
  head-stays x f hx = elim (Bool-cases (d.id == x.id)) [
    | inr n ↦ subst (HeadAt x.current_version x.version) (sym (others-stay x.id n)) hx
    | inl e ↦ subst (HasHead (filter_rows stays s.versions)) (same x f e) (
        subst (HeadAt d.current_version d.version) (sym own-stay)
          (HeadAt-stays d.current_version refl (IsWf-HasHead d s w h)))
  ]
    where
      same_some : (a b : Document) → some a ≡ some b → a ≡ b
      same_some a b p = cc

      same :
          (x : Document)
          → find (has_document_id x.id) s.documents ≡ some x
          → (d.id == x.id) ≡ true
          → d ≡ x
      same x f e =
          same_some d x
            (sym h ∙ ap (λ k. find (has_document_id k) s.documents) (==→eq d.id x.id e) ∙ f)

-- What pruning the versions of `d` leaves: the documents and all that they read as.
pub record IsPruned (d : Document) (s t : State) : Type 0 where
  pub wf : IsWf t
  pub same_documents : t.documents ≡ s.documents
  pub same_head : read_head d t ≡ read_head d s
  pub others : (k : ℕ) → (d.id == k) ≡ false → versions_of k t.versions ≡ versions_of k s.versions

All-both :
    (P Q R : Document → Type 0) (xs : List Document)
    → ((x : Document) → P x → Q x → R x)
    → All P xs
    → All Q xs
    → All R xs
All-both P Q R [] k p q = tt
All-both P Q R (x ∷ xs) k p q = (k x p.0 q.0, All-both P Q R xs k p.1 q.1)

same_last :
    (o : Option ℕ) (n : ℕ) (rows kept : List DocumentVersion)
    → HeadAt o n rows
    → (q : DocumentVersion → Bool) → kept ≡ filter_rows q rows
    → ((l : DocumentVersion) → get_last? rows ≡ some l → o ≡ some l.id → q l ≡ true)
    → last_body (map (λ v. v.file) kept) ≡ last_body (map (λ v. v.file) rows)
unfolding filter_rows
same_last none n rows kept h q e k = rw (e, h) refl
same_last (some i) n rows kept h q e k =
    rw e (
      last_body-map (filter_rows q rows) h.row
        (get_last?-filter_rows q rows h.row h.last (k h.row h.last (ap some (sym h.has_key)))))
    ∙ sym (last_body-map rows h.row h.last)

-- In a well-formed state, pruning the versions of a document as the table holds it, by any limits,
-- leaves the state well-formed: no head is deleted. The document reads as before, no row of a
-- document changes, and all versions of the other documents stay.
pub prune_versions-IsPruned :
    (env : Env) (c : Defaults) (d : Document) (s : State)
    → IsWf s
    → IsFresh d s
    → IsPruned d s (prune_versions env c d s).1
unfolding prune_versions doomed
prune_versions-IsPruned env c d s w h = record {
  wf = wf;
  same_documents = refl;
  same_head =
      read_head-last_body d (prune_versions env c d s).1 wf h
      ∙ same_last d.current_version d.version (versions_of d.id s.versions) _ (IsWf-HasHead d s w h)
          (stays env c d s w h) (own-stay env c d s w h)
          (λ l _ e. ap not (is_doomed-head _ env.now d _ l.id e))
      ∙ sym (read_head-last_body d s w h);
  others = others-stay env c d s w h;
}
  where
    wf : IsWf (prune_versions env c d s).1
    wf = record {
      unique_keys = Unique-filter_rows (same_key version_id) _ s.versions w.unique_keys;
      unique_documents = w.unique_documents;
      owned = filter_rows-All _ _ s.versions (All-map _ _ s.versions (λ v o q. o) w.owned);
      heads =
          All-both _ _ _ s.documents (head-stays env c d s w h)
            (All-found document_id s.documents w.unique_documents) w.heads;
    }

-- ===== src/Runbook/Service/Overwritten.antt =====
-- apps/runbook/service.py: `_overwrite_head` replaces the last text of the history of its document.
use smallstack_tabler.Prelude.{
  ℕ, ◌≡◌, refl, sym, ap, ◌∙◌, subst, String, true, false, Option, none, some, filter_rows-All, List,
  [], ◌∷◌, map, arith, ◌==◌, ==→eq, is_none, find, filter_rows, update_where, written, get_last?,
  All, All-update_where, Unique, Unique-update_where, same_key, set_last, filter_rows-update_where,
  update_where-set_last, any_row-left_out, get_last?-set_last, All-set_last, All-get_last?,
  update_where-none, Unique-filter_rows, Bool-cases, inl, inr,
}
use smallstack_tabler.Runbook.Model.{
  Text, Document, DocumentVersion, State, ok, Env, has_version_id, is_version_of, versions_of,
  head_row,
}
use smallstack_tabler.Runbook.Service.{write_document, overwritten_row, overwrite_head}
use smallstack_tabler.Runbook.Service.Versions.{
  version_id, IsOwned, history, IsLast, HeadAt, HasHead, IsWf, IsFresh, IsWf-HasHead, find-IsLast,
}
use smallstack_tabler.Runbook.Service.Kept.{
  IsWritten, heads-written, find-written, spared-written, query-written, Unique-written,
  IsOwned-written,
}

-- The rows of each document after the head row `v` of the document `d` is overwritten.
module _ (f : DocumentVersion → DocumentVersion) (v : DocumentVersion) (vs : List DocumentVersion)
    (same_keys : (x : DocumentVersion) → (f x).id ≡ x.id)
    (same_documents : (x : DocumentVersion) → (f x).document ≡ x.document) where
  kept_rows :
      (k : ℕ)
      → versions_of k (update_where (has_version_id v.id) f vs)
        ≡ update_where (has_version_id v.id) f (versions_of k vs)
  unfolding versions_of
  kept_rows k =
      filter_rows-update_where (is_version_of k) (has_version_id v.id) f vs
        (λ x. ground (arith, same_documents x))

  versions_of-overwrite :
      (d : ℕ)
      → Unique (same_key version_id) vs
      → get_last? (versions_of d vs) ≡ some v
      → versions_of d (update_where (has_version_id v.id) f vs) ≡ set_last f (versions_of d vs)
  unfolding versions_of
  versions_of-overwrite d u l =
      kept_rows d
      ∙ update_where-set_last version_id f (versions_of d vs) v
          (Unique-filter_rows (same_key version_id) (is_version_of d) vs u) l

  versions_of-spared :
      (k : ℕ)
      → Unique (same_key version_id) vs
      → find (has_version_id v.id) vs ≡ some v
      → (v.document == k) ≡ false
      → versions_of k (update_where (has_version_id v.id) f vs) ≡ versions_of k vs
  unfolding versions_of
  versions_of-spared k u h e =
      kept_rows k
      ∙ update_where-none (has_version_id v.id) f (filter_rows (is_version_of k) vs)
          (any_row-left_out version_id (is_version_of k) vs v.id v u h e)

set_last-map :
    (f : DocumentVersion → DocumentVersion) (b : Text) (rows : List DocumentVersion)
    → ((x : DocumentVersion) → (f x).file ≡ b)
    → map (λ x. x.file) (set_last f rows) ≡ set_last (λ _. b) (map (λ x. x.file) rows)
set_last-map f b [] k = refl
set_last-map f b (x ∷ []) k = rw (k x) refl
set_last-map f b (x ∷ y ∷ ys) k = ap (◌∷◌ x.file) (set_last-map f b (y ∷ ys) k)

-- The last row of a document's versions belongs to it.
last-is_version_of :
    (i : ℕ) (vs : List DocumentVersion) (v : DocumentVersion)
    → get_last? (versions_of i vs) ≡ some v
    → v.document ≡ i
unfolding versions_of
last-is_version_of i vs v h =
    All-get_last? (λ x. x.document ≡ i) (filter_rows (is_version_of i) vs) v
      (filter_rows-All _ (is_version_of i) vs (each vs)) h
  where
    each : (xs : List DocumentVersion) → All (λ x. is_version_of i x ≡ true → x.document ≡ i) xs
    each [] = tt
    each (x ∷ xs) = (==→eq x.document i, each xs)

HeadAt-set_last :
    (o : Option ℕ) (n : ℕ) (body : Text) (source via : String) (rows : List DocumentVersion)
    → HeadAt o n rows
    → HeadAt o n (set_last (overwritten_row body source via) rows)
HeadAt-set_last none n body source via rows h = rw h refl
HeadAt-set_last (some i) n body source via rows h = record {
  row = overwritten_row body source via h.row;
  last = get_last?-set_last (overwritten_row body source via) rows h.row h.last;
  has_key = h.has_key;
  has_number = h.has_number;
  greatest = All-set_last _ (overwritten_row body source via) rows (λ x q. q) h.greatest;
}

head_row-eq :
    (d : Document) (i : ℕ) (v : DocumentVersion) (s : State)
    → d.current_version ≡ some i
    → find (has_version_id i) s.versions ≡ some v
    → head_row d s ≡ some v
unfolding head_row
head_row-eq d i v s e h = rw (e, h) refl

overwrite_head-eq :
    (env : Env) (d : Document) (i : ℕ) (v : DocumentVersion) (body : Text) (source via : String)
    (s : State)
    → d.current_version ≡ some i
    → find (has_version_id i) s.versions ≡ some v
    → overwrite_head env d body source via s
      ≡ ok (
        record d { updated_at = env.now },
        write_document d.id
            (λ x. record x { updated_at = env.now })
            (record s {
              versions =
                  update_where (has_version_id v.id) (overwritten_row body source via) s.versions;
            }),
      )
unfolding overwrite_head
overwrite_head-eq env d i v body source via s e h =
    rw (ap is_none e, head_row-eq d i v s e h, overwrite_head) refl

pub overwrite_head-IsWritten :
    (env : Env) (d : Document) (i : ℕ) (body : Text) (source via : String) (s : State)
    → IsWf s
    → IsFresh d s
    → d.current_version ≡ some i
    → (r : Document × State) × (overwrite_head env d body source via s ≡ ok r)
      × IsWritten (set_last (λ _. body) (history d.id s)) d s r
unfolding overwrite_head head_row
overwrite_head-IsWritten env d i body source via s w h e = (
  (record d { updated_at = env.now }, s'),
  overwrite_head-eq env d i v body source via s e
      (find-IsLast d.id i d.version s.versions w.unique_keys l),
  record {
    same_document = refl;
    fresh =
        find-written d.id (λ x. record x { updated_at = env.now }) s.documents d (λ x. refl) refl h;
    found = λ q o.
        query-written q d.id (λ x. record x { updated_at = env.now }) s.documents d
          (λ x. o x x.current_version x.version env.now) refl;
    wf = record {
      unique_keys =
          Unique-update_where (same_key version_id) (has_version_id v.id) f s.versions
            (λ x y. ground arith) w.unique_keys;
      unique_documents =
          Unique-written d.id (λ x. record x { updated_at = env.now }) s.documents (λ x. refl)
            w.unique_documents;
      owned = All-update_where _ (has_version_id v.id) f s.versions own_row (
          IsOwned-written d.id (λ x. record x { updated_at = env.now }) s.documents s.versions
            (λ x. refl) w.owned);
      heads =
          heads-written d.id (λ x. record x { updated_at = env.now }) s.versions vs s.documents own
            others w.heads;
    };
    is_own =
        ap (map (λ x. x.file)) rows ∙ set_last-map f body (versions_of d.id s.versions) (λ x. refl);
    others = others;
    spared = λ k e.
        spared-written d.id k (λ x. record x { updated_at = env.now }) s.documents (λ x. refl) e;
  },
)
  where
    l : IsLast i d.version (versions_of d.id s.versions)
    l = rw e at (IsWf-HasHead d s w h)

    v : DocumentVersion
    v = l.row

    f : DocumentVersion → DocumentVersion
    f = overwritten_row body source via

    vs : List DocumentVersion
    vs = update_where (has_version_id v.id) f s.versions

    s' : State
    s' = write_document d.id (λ x. record x { updated_at = env.now }) (record s { versions = vs })

    own_row :
        (x : DocumentVersion)
        → IsOwned (s'.documents) x
        → IsOwned (s'.documents) (written (has_version_id v.id) f x)
    own_row x q = elim (Bool-cases (has_version_id v.id x)) [ inl b ↦ rw b q | inr b ↦ rw b q ]

    rows : versions_of d.id vs ≡ set_last f (versions_of d.id s.versions)
    rows = versions_of-overwrite f v s.versions (λ x. refl) (λ x. refl) d.id w.unique_keys l.last

    others : (k : ℕ) → (d.id == k) ≡ false → versions_of k vs ≡ versions_of k s.versions
    others k n =
        versions_of-spared f v s.versions (λ x. refl) (λ x. refl) k w.unique_keys
          (subst (λ j. find (has_version_id j) s.versions ≡ some v) (sym l.has_key)
            (find-IsLast d.id i d.version s.versions w.unique_keys l))
          (ground (arith, last-is_version_of d.id s.versions v l.last))

    own :
        (x : Document)
        → x.id ≡ d.id
        → HasHead s.versions x
        → HasHead vs (record x { updated_at = env.now })
    own x e' hx =
        subst (HeadAt x.current_version x.version) (sym (ap (λ k. versions_of k vs) e' ∙ rows)) (
          HeadAt-set_last x.current_version x.version body source via (versions_of d.id s.versions)
            (subst (λ k. HeadAt x.current_version x.version (versions_of k s.versions)) e' hx))

-- ===== src/Runbook/Service/Inserted.antt =====
-- apps/runbook/models.py: `create_new_version` adds one text to the history of its document.
use smallstack_tabler.Prelude.{
  ℕ, suc, ◌+◌, ◌≤◌, ◌≡◌, refl, sym, ap, ◌∙◌, subst, String, Bool, true, false, ◌&&◌, Option, none,
  some, List, [], ◌∷◌, ◌++◌, map, arith, ◌==◌, ==_refl, any_row, filter_rows, All, All-append,
  All-map, Unique-snoc, same_key, filter_rows-append, get_last?-append, any_row-map, map-append,
  any_row-find,
}
use smallstack_tabler.Runbook.Model.{
  Text, Document, DocumentVersion, State, ok, Env, has_document_id, is_version_of, versions_of,
  head_row,
}
use smallstack_tabler.Runbook.Permissions.{Actor}
use smallstack_tabler.Runbook.Service.{
  is_insertable, sync_head, next_version, version_key, version_row, insert_version,
  create_new_version,
}
use smallstack_tabler.Runbook.Service.Versions.{
  version_id, history, IsLast, HasHead, IsWf, IsFresh, KeyLaw, IsWf-HasHead, find-IsLast,
}
use smallstack_tabler.Runbook.Service.Kept.{
  IsWritten, heads-written, find-written, spared-written, query-written, Unique-written,
  IsOwned-written,
}

-- The number that `next_version` gives is greater than all numbers of the document.
next_version-greatest :
    (d : Document) (s : State)
    → IsWf s
    → IsFresh d s
    → (n : ℕ) × (next_version d s ≡ ok n)
      × All (λ v. suc v.version ≤ n) (versions_of d.id s.versions)
unfolding next_version head_row
next_version-greatest d s w h = by_head d.current_version refl
  where
    Found : Type 0
    Found =
        (n : ℕ) × (next_version d s ≡ ok n)
        × All (λ v. suc v.version ≤ n) (versions_of d.id s.versions)

    by_head : (o : Option ℕ) → d.current_version ≡ o → Found
    by_head none e =
        let empty : versions_of d.id s.versions ≡ [] = rw e at (IsWf-HasHead d s w h) in
        (1, rw e refl, rw empty tt)
    by_head (some i) e =
        let l : IsLast i d.version (versions_of d.id s.versions) = rw e at (IsWf-HasHead d s w h) in
        (
          l.row.version + 1,
          rw (e, find-IsLast d.id i d.version s.versions w.unique_keys l) refl,
          All-map _ _ _ (λ v k. ground (arith, l.has_number, k)) l.greatest,
        )

any_row-both :
    (p q : DocumentVersion → Bool) (vs : List DocumentVersion)
    → any_row (λ v. p v && q v) vs ≡ any_row q (filter_rows p vs)
unfolding any_row filter_rows
any_row-both p q [] = refl
any_row-both p q (v ∷ vs) = ground (arith, any_row-both p q vs)

any_row-smaller :
    (n : ℕ) (vs : List DocumentVersion)
    → All (λ v. suc v.version ≤ n) vs
    → any_row (λ v. v.version == n) vs ≡ false
unfolding any_row
any_row-smaller n [] h = refl
any_row-smaller n (v ∷ vs) h = ground (arith, any_row-smaller n vs)

is_insertable-next :
    (d : Document) (s : State) (n : ℕ)
    → IsFresh d s
    → All (λ v. suc v.version ≤ n) (versions_of d.id s.versions)
    → is_insertable d.id n s ≡ true
unfolding is_insertable versions_of
is_insertable-next d s n h g =
    rw
      (
        any_row-find (has_document_id d.id) s.documents d h,
        any_row-both (is_version_of d.id) (λ v. v.version == n) s.versions,
        any_row-smaller n (filter_rows (is_version_of d.id) s.versions) g,
      )
      refl

-- The rows of each document after a row of the document `d` is inserted.
versions_of-insert :
    (vs : List DocumentVersion) (v : DocumentVersion)
    → versions_of v.document (vs ++ v ∷ []) ≡ versions_of v.document vs ++ v ∷ []
unfolding versions_of filter_rows
versions_of-insert vs v =
    filter_rows-append (is_version_of v.document) vs (v ∷ []) ∙ rw (==_refl v.document) refl

versions_of-other :
    (vs : List DocumentVersion) (v : DocumentVersion) (k : ℕ)
    → (v.document == k) ≡ false
    → versions_of k (vs ++ v ∷ []) ≡ versions_of k vs
unfolding versions_of filter_rows
versions_of-other vs v k e = filter_rows-append (is_version_of k) vs (v ∷ []) ∙ rw e (append_nil _)
  where
    append_nil : (xs : List DocumentVersion) → xs ++ [] ≡ xs
    append_nil [] = refl
    append_nil (x ∷ xs) = ap (◌∷◌ x) (append_nil xs)

pub insert_version-IsWritten :
    (env : Env) (d : Document) (n : ℕ) (body : Text) (description source via : String) (a : Actor)
    (s : State)
    → KeyLaw env
    → IsWf s
    → IsFresh d s
    → All (λ v. suc v.version ≤ n) (versions_of d.id s.versions)
    → IsWritten
        (history d.id s ++ body ∷ [])
        d
        s
        (insert_version env d n body description source via a s)
unfolding insert_version
insert_version-IsWritten env d n body description source via a s law w h g = record {
  same_document = refl;
  fresh = find-written d.id (sync_head env i n) s.documents d (λ x. refl) refl h;
  found = λ q o.
      query-written q d.id (sync_head env i n) s.documents d (λ x. o x (some i) n env.now) refl;
  wf = record {
    unique_keys =
        Unique-snoc (same_key version_id) s.versions v w.unique_keys
          (sym (any_row-map version_id i s.versions) ∙ law (map version_id s.versions));
    unique_documents =
        Unique-written d.id (sync_head env i n) s.documents (λ x. refl) w.unique_documents;
    owned =
        All-append _ s.versions (v ∷ [])
          (IsOwned-written d.id (sync_head env i n) s.documents s.versions (λ x. refl) w.owned)
          (
            any_row-find (has_document_id d.id) _ _
                (find-written d.id (sync_head env i n) s.documents d (λ x. refl) refl h),
            tt,
          );
    heads =
        heads-written d.id (sync_head env i n) s.versions (s.versions ++ v ∷ []) s.documents own
          others w.heads;
  };
  is_own =
      ap (map (λ x. x.file)) (versions_of-insert s.versions v)
      ∙ map-append (λ x. x.file) (versions_of d.id s.versions) (v ∷ []);
  others = others;
  spared = λ k e. spared-written d.id k (sync_head env i n) s.documents (λ x. refl) e;
}
  where
    i : ℕ
    i = version_key env s

    v : DocumentVersion
    v = version_row env d i n body description source via a

    others :
        (k : ℕ)
        → (d.id == k) ≡ false
        → versions_of k (s.versions ++ v ∷ []) ≡ versions_of k s.versions
    others k e = versions_of-other s.versions v k e

    own :
        (x : Document)
        → x.id ≡ d.id
        → HasHead s.versions x
        → IsLast i n (versions_of x.id (s.versions ++ v ∷ []))
    own x e hx =
        subst (λ k. IsLast i n (versions_of k (s.versions ++ v ∷ []))) (sym e)
          (subst (IsLast i n) (sym (versions_of-insert s.versions v)) (record {
            row = v;
            last = get_last?-append (versions_of d.id s.versions) v;
            has_key = refl;
            has_number = refl;
            greatest =
                All-append _ (versions_of d.id s.versions) (v ∷ [])
                  (All-map _ _ _ (λ u q. omega (arith, q)) g) (omega arith, tt);
          }))

pub create_new_version-IsWritten :
    (env : Env) (d : Document) (body : Text) (description source via : String) (a : Actor)
    (s : State)
    → KeyLaw env
    → IsWf s
    → IsFresh d s
    → (r : Document × State) × (create_new_version env d body description source via a s ≡ ok r)
      × IsWritten (history d.id s ++ body ∷ []) d s r
unfolding create_new_version
create_new_version-IsWritten env d body description source via a s law w h =
    let (n, e, g) = next_version-greatest d s w h in
    (
      insert_version env d n body description source via a s,
      rw (e, is_insertable-next d s n h g) refl,
      insert_version-IsWritten env d n body description source via a s law w h g,
    )

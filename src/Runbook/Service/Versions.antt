-- ===== src/Runbook/Service/Versions.antt =====
-- apps/runbook/models.py: the versions of a document, its head, and what a table of documents keeps.
use smallstack_tabler.Prelude.{
  ℕ, ◌≤◌, ◌≡◌, refl, sym, subst, Bool, true, false, Option, none, some, List, [], ◌∷◌, map, ◌==◌,
  ==_refl, find, any_row, get_last?, All, find-All, Unique, same_key, find-get_last?, find-Unique,
  find-filter_rows, Unique-filter_rows,
}
use smallstack_tabler.Runbook.Model.{
  Text, Document, DocumentVersion, State, Env, has_document_id, has_version_id, is_version_of,
  versions_of, head_row,
}
use smallstack_tabler.Runbook.Service.{read_head}

abbrev pub version_id : DocumentVersion → ℕ
version_id v = v.id

abbrev pub document_id : Document → ℕ
document_id d = d.id

-- The bodies of a document's versions, the oldest first.
abbrev pub history : ℕ → State → List Text
history i s = map (λ v. v.file) (versions_of i s.versions)

-- The head is the last row, it has the document's number, and no row has a greater one.
pub record IsLast (i n : ℕ) (rows : List DocumentVersion) : Type 0 where
  pub row : DocumentVersion
  pub last : get_last? rows ≡ some row
  pub has_key : row.id ≡ i
  pub has_number : row.version ≡ n
  pub greatest : All (λ v. v.version ≤ n) rows

-- A document without a head has no versions.
abbrev pub HeadAt : Option ℕ → ℕ → List DocumentVersion → Type 0
HeadAt none n rows = rows ≡ []
HeadAt (some i) n rows = IsLast i n rows

abbrev pub HasHead : List DocumentVersion → Document → Type 0
HasHead vs d = HeadAt d.current_version d.version (versions_of d.id vs)

-- A version belongs to a document of the table: the foreign key.
abbrev pub IsOwned : List Document → DocumentVersion → Type 0
IsOwned ds v = any_row (has_document_id v.document) ds ≡ true

pub record IsWf (s : State) : Type 0 where
  pub unique_keys : Unique (same_key version_id) s.versions
  pub unique_documents : Unique (same_key document_id) s.documents
  pub owned : All (IsOwned s.documents) s.versions
  pub heads : All (HasHead s.versions) s.documents

-- The caller's object is what the table holds.
abbrev pub IsFresh : Document → State → Type 0
IsFresh d s = find (has_document_id d.id) s.documents ≡ some d

-- In a well-formed state the row that any query returns is the one that its key finds.
pub find-IsFresh :
    (q : Document → Bool) (d : Document) (s : State)
    → IsWf s
    → find q s.documents ≡ some d
    → IsFresh d s
find-IsFresh q d s w h =
    find-Unique (same_key document_id) q s.documents d w.unique_documents (==_refl d.id) h

-- A key that the database gives is not in use.
abbrev pub KeyLaw : Env → Type 0
KeyLaw env = (keys : List ℕ) → any_row (λ x. x == env.new_key keys) keys ≡ false

pub IsWf-HasHead : (d : Document) (s : State) → IsWf s → IsFresh d s → HasHead s.versions d
IsWf-HasHead d s w h = find-All (HasHead s.versions) (has_document_id d.id) s.documents d w.heads h

-- The head row of a document, found by its key.
pub find-IsLast :
    (d i n : ℕ) (vs : List DocumentVersion)
    → Unique (same_key version_id) vs
    → (l : IsLast i n (versions_of d vs)) → find (has_version_id i) vs ≡ some l.row
unfolding versions_of
find-IsLast d i n vs u l =
    subst (λ k. find (has_version_id k) vs ≡ some l.row) l.has_key
      (find-filter_rows version_id (is_version_of d) vs l.row.id l.row u (
        find-get_last? version_id (versions_of d vs) l.row
          (Unique-filter_rows (same_key version_id) (is_version_of d) vs u) l.last))

-- The last body of a history; the empty text if there is none.
abbrev pub last_body : List Text → Text
last_body [] = []
last_body (b ∷ []) = b
last_body (b ∷ c ∷ bs) = last_body (c ∷ bs)

pub last_body-map :
    (rows : List DocumentVersion) (v : DocumentVersion)
    → get_last? rows ≡ some v
    → last_body (map (λ x. x.file) rows) ≡ v.file
last_body-map [] v h = cc
last_body-map (x ∷ []) v h = cc
last_body-map (x ∷ y ∷ ys) v h = last_body-map (y ∷ ys) v h

-- In a well-formed state, the head that is read of a document as the table holds it is the last
-- body of its history.
pub read_head-last_body :
    (d : Document) (s : State) → IsWf s → IsFresh d s → read_head d s ≡ last_body (history d.id s)
unfolding read_head head_row
read_head-last_body d s w h = by_head d.current_version refl
  where
    by_head : (o : Option ℕ) → d.current_version ≡ o → read_head d s ≡ last_body (history d.id s)
    by_head none e =
        let empty : versions_of d.id s.versions ≡ [] = rw e at (IsWf-HasHead d s w h) in
        rw (e, empty) refl
    by_head (some i) e =
        let l : IsLast i d.version (versions_of d.id s.versions) = rw e at (IsWf-HasHead d s w h) in
        rw (e, find-IsLast d.id i d.version s.versions w.unique_keys l)
          (sym (last_body-map (versions_of d.id s.versions) l.row l.last))

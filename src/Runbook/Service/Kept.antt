-- ===== src/Runbook/Service/Kept.antt =====
-- apps/runbook/service.py: what a write to one document leaves of the tables.
use smallstack_tabler.Prelude.{
  ℕ, ◌≡◌, refl, sym, ap, ◌∙◌, subst, Bool, true, false, Option, some, List, [], ◌∷◌, arith, ◌==◌,
  ==_refl, ==→eq, find, update_where, All, All-map, Unique, Unique-update_where, same_key,
  find-update_where, any_row-update_where, Bool-cases, inl, inr, if◌then◌else◌,
}
use smallstack_tabler.Runbook.Model.{
  Event, Text, Document, DocumentVersion, State, has_document_id, versions_of,
}
use smallstack_tabler.Runbook.Service.{emit}
use smallstack_tabler.Runbook.Service.Versions.{
  document_id, IsOwned, history, HeadAt, HasHead, IsWf, IsFresh,
}

-- A query that does not read the columns of the head.
abbrev pub IsOffHead : (Document → Bool) → Type 0
IsOffHead q =
    (x : Document) (o : Option ℕ) (n now : ℕ)
    → q (record x { current_version = o; version = n; updated_at = now }) ≡ q x

-- What a write to the document `d` leaves: `own` is the new history of `d`.
pub record IsWritten (own : List Text) (d : Document) (s : State) (r : Document × State)
    : Type 0 where
  pub same_document : r.0.id ≡ d.id
  pub fresh : IsFresh r.0 r.1
  pub found :
      (q : Document → Bool)
      → IsOffHead q
      → find q s.documents ≡ some d
      → find q r.1.documents ≡ some r.0
  pub wf : IsWf r.1
  pub spared :
      (k : ℕ)
      → (d.id == k) ≡ false
      → find (has_document_id k) r.1.documents ≡ find (has_document_id k) s.documents
  pub is_own : history d.id r.1 ≡ own
  pub others : (k : ℕ) → (d.id == k) ≡ false → versions_of k r.1.versions ≡ versions_of k s.versions

-- A write to the document `i` keeps the heads of all documents, if it keeps that of `i`.
pub heads-written :
    (i : ℕ) (f : Document → Document) (vs ws : List DocumentVersion) (ds : List Document)
    → ((x : Document) → x.id ≡ i → HasHead vs x → HasHead ws (f x))
    → ((k : ℕ) → (i == k) ≡ false → versions_of k ws ≡ versions_of k vs)
    → All (HasHead vs) ds
    → All (HasHead ws) (update_where (has_document_id i) f ds)
unfolding update_where
heads-written i f vs ws [] own others h = tt
heads-written i f vs ws (x ∷ xs) own others h = (
  elim (Bool-cases (x.id == i)) [
    | inl t ↦ rw t (own x (==→eq x.id i t) h.0)
    | inr e ↦
        rw e (subst (HeadAt x.current_version x.version) (sym (others x.id (ground arith))) h.0)
  ],
  heads-written i f vs ws xs own others h.1,
)

pub find-written :
    (i : ℕ) (f : Document → Document) (ds : List Document) (d : Document)
    → ((x : Document) → (f x).id ≡ x.id)
    → d.id ≡ i
    → find (has_document_id i) ds ≡ some d
    → find (has_document_id i) (update_where (has_document_id i) f ds) ≡ some (f d)
find-written i f ds d k e h =
    find-update_where (has_document_id i) (has_document_id i) f ds (λ x. ground (arith, k x))
    ∙ rw h (ap some (rw (e, ==_refl i) refl))

-- A write to a row that keeps its key keeps the keys unique.
pub Unique-written :
    (i : ℕ) (f : Document → Document) (ds : List Document)
    → ((x : Document) → (f x).id ≡ x.id)
    → Unique (same_key document_id) ds
    → Unique (same_key document_id) (update_where (has_document_id i) f ds)
Unique-written i f ds k =
    Unique-update_where (same_key document_id) (has_document_id i) f ds
      (λ x y. ground (arith, k x, k y))

pub IsOwned-written :
    (i : ℕ) (f : Document → Document) (ds : List Document) (vs : List DocumentVersion)
    → ((x : Document) → (f x).id ≡ x.id)
    → All (IsOwned ds) vs
    → All (IsOwned (update_where (has_document_id i) f ds)) vs
IsOwned-written i f ds vs k =
    All-map (IsOwned ds) (IsOwned (update_where (has_document_id i) f ds)) vs (λ v h.
      any_row-update_where (has_document_id v.document) (has_document_id i) f ds
        (λ x. ground (arith, k x))
      ∙ h)

-- It changes no row of another document.
pub spared-written :
    (i k : ℕ) (f : Document → Document) (ds : List Document)
    → ((x : Document) → (f x).id ≡ x.id)
    → (i == k) ≡ false
    → find (has_document_id k) (update_where (has_document_id i) f ds) ≡ find (has_document_id k) ds
unfolding find update_where
spared-written i k f [] e n = refl
spared-written i k f (x ∷ xs) e n = elim (Bool-cases (x.id == i)) [
  | inr o ↦ rw o (ap (λ r. if x.id == k then some x else r) (spared-written i k f xs e n))
  | inl o ↦
      let new : ((f x).id == k) ≡ false = ground (arith, e x) in
      let old : (x.id == k) ≡ false = ground arith in rw (o, new, old) (spared-written i k f xs e n)
]

-- The same for any query that the write does not touch.
pub query-written :
    (q : Document → Bool) (i : ℕ) (f : Document → Document) (ds : List Document) (d : Document)
    → ((x : Document) → q (f x) ≡ q x)
    → d.id ≡ i
    → find q ds ≡ some d
    → find q (update_where (has_document_id i) f ds) ≡ some (f d)
query-written q i f ds d k e h =
    find-update_where q (has_document_id i) f ds (λ x. kept x (has_document_id i x))
    ∙ rw h (ap some (rw (e, ==_refl i) refl))
  where
    kept : (x : Document) (b : Bool) → q (if b then f x else x) ≡ q x
    kept x true = k x
    kept x false = refl

-- An event changes no table.
pub emit-IsWritten :
    (own : List Text) (d : Document) (s : State) (r : Document × State) (e : Event)
    → IsWritten own d s r
    → IsWritten own d s (r.0, emit e r.1)
emit-IsWritten own d s r e k = record {
  same_document = k.same_document;
  fresh = k.fresh;
  found = k.found;
  wf = record {
    unique_keys = k.wf.unique_keys;
    unique_documents = k.wf.unique_documents;
    owned = k.wf.owned;
    heads = k.wf.heads;
  };
  is_own = k.is_own;
  others = k.others;
  spared = k.spared;
}

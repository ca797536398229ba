-- ===== src/Runbook/Documents/Saved.antt =====
-- apps/runbook/service.py: the columns that `put_document` saves before it writes.
use smallstack_tabler.Prelude.{
  ℕ, ◌≡◌, refl, String, Bool, false, not, ◌&&◌, ◌||◌, Option, none, some, List, ◌==◌, find, is_none,
  if◌then◌else◌, Bool-cases, inl, inr,
}
use mathlib.Core.Path.{ap₂}
use smallstack_tabler.Runbook.Model.{
  Runbook, Section, Document, State, Result, ok, Env, has_document_id, document_not_found,
  not_authorized, document_locked, raised,
}
use smallstack_tabler.Runbook.Permissions.{
  Actor, can_view, can_edit, is_superuser, runbook_of, can_view_doc, can_edit_doc, runbook_at,
}
use smallstack_tabler.Runbook.Lookup.{is_keyed}
use smallstack_tabler.Runbook.Service.{is_internal, write_document, check_writable}
use smallstack_tabler.Runbook.Service.Versions.{IsWf, IsFresh}
use smallstack_tabler.Runbook.Service.Kept.{
  heads-written, spared-written, query-written, Unique-written, IsOwned-written,
}
use smallstack_tabler.Runbook.Documents.{Put, has_meta_fields, with_meta, save_meta}

abbrev pub guard_of : Actor → Bool → Bool → Option Runbook → Result (Unit {0})
guard_of a bypass locked rb =
    if not (is_internal a || bypass) && not (can_edit a rb)
    then (if not (can_view a rb) then raised document_not_found else raised not_authorized)
    else if locked && (not bypass && not (is_superuser a))
    then raised document_locked
    else ok tt

-- The guard reads only its lock and its governing runbook.
check_writable-eq :
    (d e : Document) (a : Actor) (bypass : Bool) (s t : State)
    → e.locked ≡ d.locked
    → runbook_of t e ≡ runbook_of s d
    → check_writable e a bypass t ≡ check_writable d a bypass s
unfolding check_writable can_view_doc can_edit_doc
check_writable-eq d e a bypass s t l r = ap₂ (guard_of a bypass) l r

runbook_at-eq :
    (o : Option ℕ) (s : State) (ds : List Document)
    → runbook_at o (record s { documents = ds }) ≡ runbook_at o s
unfolding runbook_at
runbook_at-eq none s ds = refl
runbook_at-eq (some i) s ds = refl

pub runbook_of-eq :
    (d : Document) (sec : Option ℕ) (title : String) (l : Bool) (now : ℕ) (s : State)
    (ds : List Document)
    → is_none d.runbook ≡ false
    → runbook_of
        (record s { documents = ds })
        (record d { section = sec; title = title; locked = l; updated_at = now })
      ≡ runbook_of s d
unfolding runbook_of
runbook_of-eq d sec title l now s ds h = rw h (runbook_at-eq d.runbook s ds)

-- What the saved columns of an upsert leave: the versions, the keys, and who may write.
pub record IsSaved (p : Put) (d : Document) (s : State) (r : Document × State) : Type 0 where
  pub same_id : r.0.id ≡ d.id
  pub wf : IsWf r.1
  pub fresh : IsFresh r.0 r.1
  pub found :
      (i : ℕ) (k : String)
      → find (is_keyed i k) s.documents ≡ some d
      → find (is_keyed i k) r.1.documents ≡ some r.0
  pub same_versions : r.1.versions ≡ s.versions
  pub spared :
      (k : ℕ)
      → (d.id == k) ≡ false
      → find (has_document_id k) r.1.documents ≡ find (has_document_id k) s.documents
  pub same_guard :
      is_none d.runbook ≡ false
      → p.locked ≡ none
      → check_writable r.0 p.actor p.bypass_lock r.1 ≡ check_writable d p.actor p.bypass_lock s

pub save_meta-IsSaved :
    (env : Env) (p : Put) (sec : Option Section) (d : Document) (s : State)
    → IsWf s
    → IsFresh d s
    → IsSaved p d s (save_meta env p sec d s)
unfolding save_meta
save_meta-IsSaved env p sec d s w h = elim (Bool-cases (has_meta_fields p d)) [
  | inr f ↦ rw f record {
    same_id = refl;
    wf = w;
    fresh = h;
    found = λ i k e. e;
    same_versions = refl;
    spared = λ k e. refl;
    same_guard = λ a b. refl;
  }
  | inl t ↦ rw t record {
    same_id = refl;
    wf = record {
      unique_keys = w.unique_keys;
      unique_documents = Unique-written d.id f s.documents (λ x. refl) w.unique_documents;
      owned = IsOwned-written d.id f s.documents s.versions (λ x. refl) w.owned;
      heads =
          heads-written d.id f s.versions s.versions s.documents (λ x e q. q) (λ k e. refl) w.heads;
    };
    fresh = query-written (has_document_id d.id) d.id f s.documents d (λ x. refl) refl h;
    found = λ i k e. query-written (is_keyed i k) d.id f s.documents d (λ x. refl) refl e;
    same_versions = refl;
    spared = λ k e. spared-written d.id k f s.documents (λ x. refl) e;
    same_guard = guarded;
  }
]
  where
    f : Document → Document
    f = with_meta env p sec d

    guarded :
        is_none d.runbook ≡ false
        → p.locked ≡ none
        → check_writable (f d) p.actor p.bypass_lock (write_document d.id f s)
          ≡ check_writable d p.actor p.bypass_lock s
    guarded a b =
        check_writable-eq d (f d) p.actor p.bypass_lock s (write_document d.id f s) (rw b refl)
          (runbook_of-eq d _ _ _ env.now s _ a)

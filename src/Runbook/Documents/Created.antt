-- ===== src/Runbook/Documents/Created.antt =====
-- apps/runbook/service.py: `create_document` gives a well-formed state with the new document in it.
use smallstack_tabler.Prelude.{
  ℕ, ◌≡◌, refl, sym, ap, ◌∙◌, subst, true, false, Option, none, List, [], ◌∷◌, ◌++◌, map, ◌==◌,
  ==→eq, ==_refl, find, any_row, filter_rows, All, All-append, All-map, Unique-snoc, same_key,
  any_row-append, any_row-map, find-append-none, find-eq-none, Bool-cases, inl, inr,
}
use smallstack_tabler.Runbook.Model.{
  Runbook, Section, Document, DocumentVersion, State, ok, Env, created, has_document_id,
  versions_of,
}
use smallstack_tabler.Runbook.Lookup.{RunbookRef, resolve_runbook, resolve_section, check_runbook}
use smallstack_tabler.Runbook.Service.{emit_written}
use smallstack_tabler.Runbook.Service.Versions.{
  document_id, HasHead, IsOwned, IsWf, IsFresh, KeyLaw,
}
use smallstack_tabler.Runbook.Service.Kept.{IsWritten, emit-IsWritten}
use smallstack_tabler.Runbook.Service.Inserted.{create_new_version-IsWritten}
use smallstack_tabler.Runbook.Documents.{
  NewDocument, section_id, is_free_key, document_key, new_document, add_document, create_document,
}

-- A key that no document has is the document of no version.
versions_of-unused :
    (i : ℕ) (ds : List Document) (vs : List DocumentVersion)
    → any_row (has_document_id i) ds ≡ false
    → All (IsOwned ds) vs
    → versions_of i vs ≡ []
unfolding versions_of filter_rows
versions_of-unused i ds [] h o = refl
versions_of-unused i ds (v ∷ vs) h o = elim (Bool-cases (v.document == i)) [
  | inr f ↦ rw f (versions_of-unused i ds vs h o.1)
  | inl t ↦
      let clash : true ≡ false =
        sym o.0 ∙ ap (λ k. any_row (has_document_id k) ds) (==→eq v.document i t) ∙ h in
      cc
]

pub document_key-unused :
    (env : Env) (s : State)
    → KeyLaw env
    → any_row (has_document_id (document_key env s)) s.documents ≡ false
document_key-unused env s law =
    sym (any_row-map document_id (document_key env s) s.documents)
    ∙ law (map document_id s.documents)

-- A document with a key of its own and without a head, added to a well-formed state.
pub add_document-IsWf :
    (d : Document) (s : State)
    → any_row (has_document_id d.id) s.documents ≡ false
    → d.current_version ≡ none
    → IsWf s
    → IsWf (add_document d s)
add_document-IsWf d s free e w = record {
  unique_keys = w.unique_keys;
  unique_documents = Unique-snoc (same_key document_id) s.documents d w.unique_documents free;
  owned =
      All-map _ _ s.versions
        (λ v o. any_row-append (has_document_id v.document) s.documents (d ∷ []) ∙ rw o refl)
        w.owned;
  heads =
      All-append (HasHead s.versions) s.documents (d ∷ []) w.heads
        (rw e (versions_of-unused d.id s.documents s.versions free w.owned), tt);
}

add_document-IsFresh :
    (d : Document) (s : State)
    → any_row (has_document_id d.id) s.documents ≡ false
    → IsFresh d (add_document d s)
unfolding find
add_document-IsFresh d s free =
    find-append-none (has_document_id d.id) s.documents (d ∷ [])
      (find-eq-none (has_document_id d.id) s.documents free)
    ∙ rw (==_refl d.id) refl

-- For a runbook and a section that resolve, a caller that may edit the runbook, and a key that is
-- free in it, a creation succeeds and leaves the new document with one version, which holds the body.
pub create_document-IsWritten :
    (env : Env) (runbook : RunbookRef) (n : NewDocument) (s : State) (rb : Runbook)
    (sec : Option Section)
    → KeyLaw env
    → IsWf s
    → resolve_runbook runbook s ≡ ok rb
    → check_runbook rb n.actor false s ≡ ok tt
    → resolve_section rb n.section s ≡ ok sec
    → is_free_key rb.id n.key s ≡ true
    → (r : Document × State) × (create_document env runbook n s ≡ ok r)
      × IsWritten
          (n.body ∷ [])
          (new_document env rb (section_id sec) n s)
          (add_document (new_document env rb (section_id sec) n s) s)
          r
unfolding create_document
create_document-IsWritten env runbook n s rb sec law w e c es f =
    let d = new_document env rb (section_id sec) n s in
    let free = document_key-unused env s law in
    let (r, q, k) =
      create_new_version-IsWritten env d n.body "" n.source n.via n.actor (add_document d s) law
        (add_document-IsWf d s free refl w) (add_document-IsFresh d s free) in
    (
      (r.0, emit_written r.0 created none n.actor n.source n.via r.1),
      rw (e, c, es, f, q) refl,
      emit-IsWritten (n.body ∷ []) d (add_document d s) r _ (
          subst (λ rows. IsWritten (map (λ v. v.file) rows ++ n.body ∷ []) d (add_document d s) r)
            (versions_of-unused d.id s.documents s.versions free w.owned) k),
    )

-- ===== src/Runbook/Documents/Upsert.antt =====
-- apps/runbook/service.py: `put_document` against `get_document` under the same key.
use smallstack_tabler.Prelude.{
  ℕ, ◌≡◌, refl, sym, ap, ◌∙◌, String, true, false, not, ◌&&◌, Option, none, some, List, [], ◌∷◌,
  ◌++◌, map, ==_refl, find, same_option, is_none, find-test, find-append-none, eq_iff,
  any_row-eq-false, Option-cases, inl, inr,
}
use mathlib.Core.Path.{ap₂}
use smallstack_tabler.Runbook.Model.{
  Text, Runbook, Section, Document, DocumentVersion, State, Result, ok, require, Env, versions_of,
  bind_ok, version_conflict,
}
use smallstack_tabler.Runbook.Permissions.{internal}
use smallstack_tabler.Runbook.Lookup.{
  RunbookRef, the_runbook, by_key, resolve_runbook, resolve_section, is_keyed, same_text,
  check_runbook, find_document, get_doc, get_document,
}
use smallstack_tabler.Runbook.Service.{new_version, read_head, check_writable}
use smallstack_tabler.Runbook.Service.Versions.{history, IsWf, KeyLaw, find-IsFresh}
use smallstack_tabler.Runbook.Service.Writing.{write_version-snapshot, read_head-snapshot}
use smallstack_tabler.Runbook.Documents.{
  apply, mode_of, Put, save_meta, put_note, to_create, is_expected, update_document, put_document,
  section_id, new_document,
}
use smallstack_tabler.Runbook.Documents.Created.{create_document-IsWritten}
use smallstack_tabler.Runbook.Documents.Saved.{save_meta-IsSaved}

-- A document that is found under a key of a runbook is in that runbook.
pub is_keyed-runbook :
    (i : ℕ) (k : String) (d : Document) → is_keyed i k d ≡ true → is_none d.runbook ≡ false
is_keyed-runbook i k d h = elim (Option-cases d.runbook) [
  | inr (r, e) ↦ rw e refl
  | inl e ↦ let contrary : false ≡ true = rw e at h in cc
]

-- What a read under a key gives after a write.
reads_back :
    (runbook : RunbookRef) (key : String) (rb : Runbook) (r : Document × State) (body : Text)
    → resolve_runbook runbook r.1 ≡ ok rb
    → find (is_keyed rb.id key) r.1.documents ≡ some r.0
    → read_head r.0 r.1 ≡ body
    → get_document (by_key runbook key) internal r.1 ≡ ok (r.0, body)
unfolding get_document get_doc find_document
reads_back runbook key rb r body e f h = rw (e, f, h) refl

history-same :
    (d e : Document) (s t : State)
    → e.id ≡ d.id
    → t.versions ≡ s.versions
    → history e.id t ≡ history d.id s
history-same d e s t i v =
    ap₂ (λ k vs. map (λ (x : DocumentVersion). x.file) (versions_of k vs)) i v

update_document-found :
    (env : Env) (rb : Runbook) (key : String) (p : Put) (d : Document) (s : State)
    (sec : Option Section)
    → KeyLaw env
    → IsWf s
    → find (is_keyed rb.id key) s.documents ≡ some d
    → check_writable d p.actor p.bypass_lock s ≡ ok tt
    → p.on_exists ≡ apply new_version
    → is_expected p.expected_version d.version ≡ true
    → p.locked ≡ none
    → resolve_section rb p.section s ≡ ok sec
    → (r : Document × State) × (update_document env rb p d s ≡ ok r)
      × (history d.id r.1 ≡ history d.id s ++ p.body ∷ [])
      × (find (is_keyed rb.id key) r.1.documents ≡ some r.0)
      × (read_head r.0 r.1 ≡ p.body)
      × IsWf r.1
unfolding update_document
update_document-found env rb key p d s sec law w e c m x l es =
    let v = save_meta-IsSaved env p sec d s w (find-IsFresh (is_keyed rb.id key) d s w e) in
    let m' = save_meta env p sec d s in
    let keyed = is_keyed-runbook rb.id key d (find-test (is_keyed rb.id key) s.documents d e) in
    let (r, q, k) =
      write_version-snapshot env m'.0 p.body (put_note p) m'.1 law v.wf v.fresh
        (v.same_guard keyed l ∙ c) in
    (
      r,
      bind_ok _ c
          ∙ bind_ok _ (ap mode_of m)
          ∙ bind_ok _ (ap (λ b. require b version_conflict) x)
          ∙ bind_ok _ es
          ∙ q,
      sym (history-same d m'.0 r.1 r.1 v.same_id refl)
          ∙ k.is_own
          ∙ ap (λ h. h ++ p.body ∷ []) (history-same d m'.0 s m'.1 v.same_id v.same_versions),
      k.found (is_keyed rb.id key) (λ y o n now. refl) (v.found rb.id key e),
      read_head-snapshot m'.0 m'.1 r (history m'.0.id m'.1) p.body k,
      k.wf,
    )

found_new :
    (i : ℕ) (k : String) (ds : List Document) (d : Document)
    → d.runbook ≡ some i
    → d.key ≡ some k
    → find (is_keyed i k) ds ≡ none
    → find (is_keyed i k) (ds ++ d ∷ []) ≡ some d
unfolding find
found_new i k ds d r e h =
    find-append-none (is_keyed i k) ds (d ∷ []) h ∙ rw (keyed d.runbook d.key r e) refl
  where
    keyed :
        (o : Option ℕ) (t : Option String)
        → o ≡ some i
        → t ≡ some k
        → (same_option o i && same_text t k) ≡ true
    keyed o t a b = rw (a, b, ==_refl i, (eq_iff k k).1 refl) refl

-- The guard of an upsert: that of a creation where the key is free, and that of a write otherwise.
abbrev pub put_guard : Runbook → String → Put → State → Result (Unit {0})
put_guard rb key p s = elim (find (is_keyed rb.id key) s.documents) [
  | none ↦ check_runbook rb p.actor false s
  | some d ↦ check_writable d p.actor p.bypass_lock s
]

-- In a well-formed state, for a runbook and a section that resolve and a caller that passes the guard,
-- an upsert that asks for a new version, expects no version and leaves the lock alone succeeds,
-- whether the document is there or not. What is read from the runbook that the name resolved to, under the
-- same key, is then the document that it returned, with the body that was put, and the state is
-- well-formed again.
pub put_document-get_document :
    (env : Env) (runbook : RunbookRef) (key : String) (p : Put) (s : State) (rb : Runbook)
    (sec : Option Section)
    → KeyLaw env
    → IsWf s
    → resolve_runbook runbook s ≡ ok rb
    → resolve_section rb p.section s ≡ ok sec
    → put_guard rb key p s ≡ ok tt
    → p.on_exists ≡ apply new_version
    → p.expected_version ≡ none
    → p.locked ≡ none
    → (r : Document × State) × (put_document env runbook key p s ≡ ok r)
      × (get_document (by_key (the_runbook rb) key) internal r.1 ≡ ok (r.0, p.body))
      × IsWf r.1
unfolding put_document resolve_runbook
put_document-get_document env runbook key p s rb sec law w e es c m x l =
    elim (Option-cases (find (is_keyed rb.id key) s.documents)) [
      | inr (d, f) ↦
          let (r, q, hs, g, h, v) =
            update_document-found env rb key p d s sec law w f (rw (f, put_guard) at c) m
              (rw x refl) l es in
          (r, bind_ok _ e ∙ rw f q, reads_back (the_runbook rb) key rb r p.body refl g h, v)
      | inl f ↦
          let (r, q, k) =
            create_document-IsWritten env (the_runbook rb) (to_create p key) s rb sec law w refl
              (rw (f, put_guard) at c) es
              (ap not (any_row-eq-false (is_keyed rb.id key) s.documents f)) in
          (
            r,
            bind_ok _ e ∙ rw f q,
            reads_back (the_runbook rb) key rb r p.body refl
                (k.found (is_keyed rb.id key) (λ y o n now. refl)
                  (found_new rb.id key s.documents
                    (new_document env rb (section_id sec) (to_create p key) s) refl refl f))
                (read_head-snapshot _ _ r [] p.body k),
            k.wf,
          )
    ]

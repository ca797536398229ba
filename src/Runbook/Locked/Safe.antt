-- ===== src/Runbook/Locked/Safe.antt =====
-- apps/runbook/service.py: each operation by a caller that a locked document stops.
use smallstack_tabler.Prelude.{
  ℕ, ◌≡◌, refl, sym, ap, ◌∙◌, subst, String, Bool, true, false, Option, none, some, [], ◌∷◌, ◌==◌,
  ==→eq, find, any_row, Bool-cases, Option-cases, inl, inr, find-append-some, any_row-find,
  if◌then◌else◌,
}
use smallstack_tabler.Runbook.Model.{
  version_conflict, Text, Runbook, Document, State, Result, ok, or_raise, >>=-eq-ok, require-eq-ok,
  Env, has_document_id, versions_of,
}
use smallstack_tabler.Runbook.Permissions.{Actor, is_superuser}
use smallstack_tabler.Runbook.Lookup.{
  RunbookRef, the_runbook, SectionRef, DocumentRef, the_document, by_uid, by_id, by_key, unnamed,
  find_document, resolve_runbook, resolve_section, is_keyed, check_runbook,
}
use smallstack_tabler.Runbook.Service.{
  new_version, WriteMode, Note, check_writable, write_version, write_document,
}
use smallstack_tabler.Runbook.Service.Versions.{HasHead, IsWf, IsFresh, KeyLaw, find-IsFresh}
use smallstack_tabler.Runbook.Documents.{
  Put, put_document, update_document, save_meta, put_note, NewDocument, create_document,
  archive_document, unarchive_document, put_away, put_back, restore_version, restore_note,
  delete_or_archive, delete_document, find_version, to_create, is_free_key, is_expected, mode_of,
  new_document, section_id, add_document,
}
use smallstack_tabler.Runbook.Documents.Saved.{save_meta-IsSaved}
use smallstack_tabler.Runbook.Documents.Created.{
  add_document-IsWf, document_key-unused, create_document-IsWritten,
}
use smallstack_tabler.Runbook.Shelves.{placed, target_place, move_document}
use smallstack_tabler.Runbook.Locked.{is_resolved}
use smallstack_tabler.Runbook.Locked.Untouched.{
  IsUntouched, IsWritten-IsUntouched, ok-injective, emit-IsUntouched, IsUntouched-refl,
  IsUntouched-trans, columns-IsUntouched, other_document, remove_document-IsUntouched,
  write_version-check, write_version-IsUntouched,
}

or_raise-eq-ok {ℓ} : {A : Type ℓ} (o : Option A) (e : _) (a : A) → or_raise o e ≡ ok a → o ≡ some a
or_raise-eq-ok none e a h = cc
or_raise-eq-ok (some b) e a h = cc

-- A document that a call reads itself is as the table holds it.
pub find_document-IsFresh :
    (ref : DocumentRef) (d : Document) (s : State)
    → is_resolved ref ≡ true
    → IsWf s
    → find_document ref s ≡ ok d
    → IsFresh d s
unfolding find_document
find_document-IsFresh (the_document e) d s k w h = cc
find_document-IsFresh (by_uid u) d s k w h =
    find-IsFresh (λ x. x.uid == u) d s w (or_raise-eq-ok _ _ d h)
find_document-IsFresh (by_id i) d s k w h =
    find-IsFresh (has_document_id i) d s w (or_raise-eq-ok _ _ d h)
find_document-IsFresh (by_key r t) d s k w h =
    let (rb, q, f) = >>=-eq-ok (resolve_runbook r s) _ h in
    find-IsFresh (is_keyed rb.id t) d s w (or_raise-eq-ok _ _ d f)
find_document-IsFresh unnamed d s k w h = cc

module _ (env : Env) (law : KeyLaw env) (d : Document) (i : ℕ) (s : State) (w : IsWf s)
    (row : find (has_document_id i) s.documents ≡ some d) (locked : d.locked ≡ true) where
  abbrev pub Safe : Result (Document × State) → Type 0
  Safe m = (r : Document × State) → m ≡ ok r → IsUntouched i s r.1

  other :
      (e : Document) (a : Actor) (bypass : Bool)
      → IsFresh e s
      → check_writable e a bypass s ≡ ok tt
      → is_superuser a ≡ false
      → bypass ≡ false
      → (e.id == i) ≡ false
  other e a b f c u p = other_document d e i a b s row locked f c u p

  pub write-Safe :
      (e : Document) (body : Text) (mode : WriteMode) (n : Note)
      → IsFresh e s
      → is_superuser n.actor ≡ false
      → n.bypass_lock ≡ false
      → Safe (write_version env e body mode n s)
  write-Safe e body mode n f u b r h =
      write_version-IsUntouched env i e body mode n s r law w f
        (other e n.actor n.bypass_lock f (write_version-check env e body mode n s r h) u b) h

  Safe-ok : (a r : Document × State) → ok a ≡ ok r → IsUntouched i s a.1 → IsUntouched i s r.1
  Safe-ok a r h u = subst (λ x. IsUntouched i s x.1) (ok-injective a r h) u

  columns :
      (j : ℕ) (f : Document → Document)
      → (j == i) ≡ false
      → ((x : Document) → (f x).id ≡ x.id)
      → ((x : Document) → HasHead s.versions x → HasHead s.versions (f x))
      → IsUntouched i s (write_document j f s)
  columns j f n k hd = columns-IsUntouched i j f s n k hd w

  either :
      (b : Bool) (p q : Document × State)
      → IsUntouched i s p.1
      → IsUntouched i s q.1
      → IsUntouched i s (if◌then◌else◌ {A = Document × State} b p q).1
  either true p q u v = u
  either false p q u v = v

  -- The operations that read the document, pass the guard, and write columns of its row.
  pub archive-Safe :
      (ref : DocumentRef) (a : Actor)
      → ((e : Document) → find_document ref s ≡ ok e → IsFresh e s)
      → is_superuser a ≡ false
      → Safe (archive_document env ref a false s)
  unfolding archive_document
  archive-Safe ref a k u r h =
      let (e, q, h') = >>=-eq-ok (find_document ref s) _ h in
      let (t, c, g) = >>=-eq-ok (check_writable e a false s) _ h' in
      let o = other e a false (k e q) c u refl in
      Safe-ok _ r g (
        either e.is_archived (e, s) _ (IsUntouched-refl i s w)
          (emit-IsUntouched i _ s _ (columns e.id (put_away env) o (λ x. refl) (λ x y. y))))

  pub unarchive-Safe :
      (ref : DocumentRef) (a : Actor)
      → is_resolved ref ≡ true
      → is_superuser a ≡ false
      → Safe (unarchive_document env ref a false s)
  unfolding unarchive_document
  unarchive-Safe ref a k u r h =
      let (e, q, h') = >>=-eq-ok (find_document ref s) _ h in
      let (t, c, g) = >>=-eq-ok (check_writable e a false s) _ h' in
      let o = other e a false (find_document-IsFresh ref e s k w q) c u refl in
      Safe-ok _ r g (
        either e.is_archived _ (e, s) (columns e.id (put_back env) o (λ x. refl) (λ x y. y))
          (IsUntouched-refl i s w))

  pub move-Safe :
      (ref : DocumentRef) (to : Option RunbookRef) (sec : SectionRef) (a : Actor)
      → is_resolved ref ≡ true
      → is_superuser a ≡ false
      → Safe (move_document env ref to sec a false s)
  unfolding move_document
  move-Safe ref to sec a k u r h =
      let (e, q, h') = >>=-eq-ok (find_document ref s) _ h in
      let (t, c, g) = >>=-eq-ok (check_writable e a false s) _ h' in
      let (p, _, g') = >>=-eq-ok (target_place to sec e a false s) _ g in
      let o = other e a false (find_document-IsFresh ref e s k w q) c u refl in
      Safe-ok _ r (require-eq-ok _ _ _ g').1
        (emit-IsUntouched i _ s _ (columns e.id (placed env p) o (λ x. refl) (λ x y. y)))

  pub restore-Safe :
      (ref : DocumentRef) (n : ℕ) (via : String) (a : Actor)
      → is_resolved ref ≡ true
      → is_superuser a ≡ false
      → Safe (restore_version env ref n via a false s)
  unfolding restore_version
  restore-Safe ref n via a k u r h =
      let (e, q, h') = >>=-eq-ok (find_document ref s) _ h in
      let (old, _, g) = >>=-eq-ok (or_raise (find_version e.id n s) _) _ h' in
      write-Safe e old.file new_version (restore_note env n via a false)
        (find_document-IsFresh ref e s k w q) u refl r g

  pub delete-Safe :
      (ref : DocumentRef) (force : Bool) (a : Actor) (t : State)
      → is_resolved ref ≡ true
      → is_superuser a ≡ false
      → delete_document env ref force a false s ≡ ok t
      → IsUntouched i s t
  unfolding delete_document delete_or_archive find_document
  delete-Safe ref force a t k u h =
      let (e, q, h') = >>=-eq-ok (find_document ref s) _ h in
      let (_, c, g) = >>=-eq-ok (check_writable e a false s) _ h' in
      let (r, g', z) = >>=-eq-ok (delete_or_archive env force e a false s) _ g in
      let o = other e a false (find_document-IsFresh ref e s k w q) c u refl in
      subst (λ x. IsUntouched i s x) (ok-injective r.1 t z)
        (gone force e r (find_document-IsFresh ref e s k w q) o g')
    where
      gone :
          (b : Bool) (e : Document) (r : Document × State)
          → IsFresh e s
          → (e.id == i) ≡ false
          → delete_or_archive env b e a false s ≡ ok r
          → IsUntouched i s r.1
      gone true e r f o g = Safe-ok _ r g (remove_document-IsUntouched i e.id s o w)
      gone false e r f o g =
          archive-Safe (the_document e) a (λ x h. subst (λ y. IsFresh y s) (ok-injective e x h) f) u
            r g

  new_key : (j : ℕ) → any_row (has_document_id j) s.documents ≡ false → (j == i) ≡ false
  new_key j h = elim (Bool-cases (j == i)) [
    | inr n ↦ n
    | inl e ↦
        let clash : true ≡ false =
          sym (any_row-find (has_document_id i) s.documents d row)
          ∙ ap (λ k. any_row (has_document_id k) s.documents) (sym (==→eq j i e))
          ∙ h in
        cc
  ]

  pub create-Safe :
      (runbook : RunbookRef) (n : NewDocument) → Safe (create_document env runbook n s)
  unfolding create_document
  create-Safe runbook n r h =
      let (rb, q1, h1) = >>=-eq-ok (resolve_runbook runbook s) _ h in
      let (_, q2, h2) = >>=-eq-ok (check_runbook rb n.actor false s) _ h1 in
      let (sec, q3, h3) = >>=-eq-ok (resolve_section rb n.section s) _ h2 in
      let (q4, h4) = require-eq-ok (is_free_key rb.id n.key s) _ _ h3 in
      let x = new_document env rb (section_id sec) n s in
      let (t, q, k) = create_document-IsWritten env runbook n s rb sec law w q1 q2 q3 q4 in
      Safe-ok t r (sym q ∙ h) (
        IsUntouched-trans i s (add_document x s) t.1
          record {
            wf = add_document-IsWf x s (document_key-unused env s law) refl w;
            same_row = find-append-some (has_document_id i) s.documents (x ∷ []) d row ∙ sym row;
            same_versions = refl;
          }
          (IsWritten-IsUntouched i _ x (add_document x s) t
            (new_key x.id (document_key-unused env s law)) k))

  pub update-Safe :
      (rb : Runbook) (p : Put) (e : Document)
      → IsFresh e s
      → is_superuser p.actor ≡ false
      → p.bypass_lock ≡ false
      → Safe (update_document env rb p e s)
  unfolding update_document
  update-Safe rb p e f u b r h =
      let (_, c, h1) = >>=-eq-ok (check_writable e p.actor p.bypass_lock s) _ h in
      let (mode, q2, h2) = >>=-eq-ok (mode_of p.on_exists) _ h1 in
      let (q3, h3) =
        require-eq-ok (is_expected p.expected_version e.version) version_conflict _ h2 in
      let (sec, q4, h4) = >>=-eq-ok (resolve_section rb p.section s) _ h3 in
      let v = save_meta-IsSaved env p sec e s w f in
      let o = other e p.actor p.bypass_lock f c u b in
      let m = save_meta env p sec e s in
      let o' : (m.0.id == i) ≡ false = subst (λ k. (k == i) ≡ false) (sym v.same_id) o in
      IsUntouched-trans i s m.1 r.1
        record {
          wf = v.wf;
          same_row = v.spared i o;
          same_versions = ap (versions_of i) v.same_versions;
        }
        (write_version-IsUntouched env i m.0 p.body mode (put_note p) m.1 r law v.wf v.fresh o' h4)

  pub put-Safe :
      (runbook : RunbookRef) (key : String) (p : Put)
      → is_superuser p.actor ≡ false
      → p.bypass_lock ≡ false
      → Safe (put_document env runbook key p s)
  unfolding put_document
  put-Safe runbook key p u b r h =
      let (rb, _, g) = >>=-eq-ok (resolve_runbook runbook s) _ h in
      elim (Option-cases (find (is_keyed rb.id key) s.documents)) [
        | inl f ↦ create-Safe (the_runbook rb) (to_create p key) r (rw f at g)
        | inr (e, f) ↦
            update-Safe rb p e (find-IsFresh (is_keyed rb.id key) e s w f) u b r (rw f at g)
      ]

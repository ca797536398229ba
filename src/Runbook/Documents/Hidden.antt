-- ===== src/Runbook/Documents/Hidden.antt =====
-- apps/runbook/service.py: what a caller learns of a document that is hidden from it.
use smallstack_tabler.Prelude.{
  ℕ, ◌≡◌, refl, sym, ◌∙◌, String, Bool, true, false, Option, none, some, is_none, if◌then◌else◌,
  ◌==◌, find, Bool-cases, Option-cases, inl, inr,
}
use smallstack_tabler.Runbook.Model.{
  Document, State, Result, raised, ◌>>=◌, bind_raised, Env, Error, document_not_found,
  version_not_found,
}
use smallstack_tabler.Runbook.Permissions.{Actor, can_view_doc, can_edit_doc, can_edit, runbook_of}
use smallstack_tabler.Runbook.Permissions.Viewable.{can_edit-can_view}
use smallstack_tabler.Runbook.Lookup.{
  RunbookRef, SectionRef, by_uid, find_document, get_doc, get_document,
}
use smallstack_tabler.Runbook.Service.{is_internal, check_writable, write_version}
use smallstack_tabler.Runbook.Documents.{
  find_version, archive_document, unarchive_document, restore_version, delete_document,
}
use smallstack_tabler.Runbook.Shelves.{move_document}

-- The table has no document of the uid that the caller may view: either none at all, or a hidden one.
abbrev pub IsHidden : ℕ → Actor → State → Type 0
IsHidden u a s =
    (d : Document) → find (λ x. x.uid == u) s.documents ≡ some d → can_view_doc a s d ≡ false

-- The guard hides what the caller may not view, locked or not.
check_writable-hidden :
    (d : Document) (a : Actor) (s : State)
    → is_internal a ≡ false
    → can_view_doc a s d ≡ false
    → check_writable d a false s ≡ raised document_not_found
unfolding check_writable can_view_doc can_edit_doc
check_writable-hidden d a s n v = elim (Bool-cases (can_edit a (runbook_of s d))) [
  | inr e ↦ rw (n, e, v, check_writable) refl
  | inl e ↦ let clash : true ≡ false = sym (can_edit-can_view a (runbook_of s d) e) ∙ v in cc
]

-- A request under a uid whose document is hidden or missing ends before it does anything.
ends_hidden {ℓ} :
    {B : Type ℓ} (u : ℕ) (a : Actor) (s : State) (f : Document → Result B)
    → IsHidden u a s
    → ((d : Document) → can_view_doc a s d ≡ false → f d ≡ raised document_not_found)
    → (find_document (by_uid u) s >>= f) ≡ raised document_not_found
unfolding find_document
ends_hidden u a s f h k = elim (Option-cases (find (λ x. x.uid == u) s.documents)) [
  | inl e ↦ rw e refl
  | inr (d, e) ↦ rw e (k d (h d e))
]

-- What restoring version `n` of the document says to a caller that may not view it.
abbrev pub hidden_restore : ℕ → Option Document → State → Error
hidden_restore n none s = document_not_found
hidden_restore n (some d) s =
    if is_none (find_version d.id n s) then version_not_found n else document_not_found

restore_version-hidden :
    (env : Env) (u : ℕ) (a : Actor) (s : State) (n : ℕ) (via : String)
    → is_internal a ≡ false
    → IsHidden u a s
    → restore_version env (by_uid u) n via a false s
      ≡ raised (hidden_restore n (find (λ d. d.uid == u) s.documents) s)
unfolding restore_version find_document write_version
restore_version-hidden env u a s n via i h =
    elim (Option-cases (find (λ d. d.uid == u) s.documents)) [
      | inl e ↦ rw e refl
      | inr (d, e) ↦ elim (Option-cases (find_version d.id n s)) [
        | inl f ↦ rw (e, f) refl
        | inr (old, f) ↦ rw (e, f) (bind_raised _ _ (check_writable-hidden d a s i (h d e)))
      ]
    ]

-- A caller other than the program itself, that does not bypass the lock, and a uid of which it may
-- view no document, whether there is none or a hidden one: reading, archiving, unarchiving, deleting
-- and moving all end with the same error and message, so they do not tell the two cases apart.
-- Restoring a version does: it ends with that error where there is no document, and where there is
-- a hidden one that has the version, but says that the version is missing where a hidden one lacks
-- it.
pub hidden_document :
    (env : Env) (u : ℕ) (a : Actor) (s : State) (force : Bool) (n : ℕ) (via : String)
    (to : Option RunbookRef) (sec : SectionRef)
    → is_internal a ≡ false
    → IsHidden u a s
    → (get_document (by_uid u) a s ≡ raised document_not_found)
      × (archive_document env (by_uid u) a false s ≡ raised document_not_found)
      × (unarchive_document env (by_uid u) a false s ≡ raised document_not_found)
      × (delete_document env (by_uid u) force a false s ≡ raised document_not_found)
      × (move_document env (by_uid u) to sec a false s ≡ raised document_not_found)
      × (restore_version env (by_uid u) n via a false s
          ≡ raised (hidden_restore n (find (λ d. d.uid == u) s.documents) s))
unfolding write_version get_document get_doc archive_document unarchive_document delete_document
    move_document restore_version
hidden_document env u a s force n via to sec i h = (
  bind_raised _ _ (ends_hidden u a s _ h (λ d v. rw (i, v) refl)),
  ends_hidden u a s _ h (λ d v. bind_raised _ _ (check_writable-hidden d a s i v)),
  ends_hidden u a s _ h (λ d v. bind_raised _ _ (check_writable-hidden d a s i v)),
  ends_hidden u a s _ h (λ d v. bind_raised _ _ (check_writable-hidden d a s i v)),
  ends_hidden u a s _ h (λ d v. bind_raised _ _ (check_writable-hidden d a s i v)),
  restore_version-hidden env u a s n via i h,
)

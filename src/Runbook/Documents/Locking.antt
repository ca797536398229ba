-- ===== src/Runbook/Documents/Locking.antt =====
-- apps/runbook/service.py: an upsert that sets the lock of a document that is there.
use smallstack_tabler.Prelude.{
  ◌≡◌, sym, ap, ◌∙◌, String, Bool, true, false, Option, some, arith, is_none, find, find-test,
  or_else, if◌then◌else◌,
}
use mathlib.Core.Path.{ap₂}
use smallstack_tabler.Runbook.Model.{
  Runbook, Section, Document, State, ok, raised, require, bind_ok, bind_raised, Env,
  document_locked, version_conflict,
}
use smallstack_tabler.Runbook.Permissions.{
  Actor, is_superuser, can_view_doc, can_edit_doc, runbook_of,
}
use smallstack_tabler.Runbook.Lookup.{RunbookRef, resolve_runbook, resolve_section, is_keyed}
use smallstack_tabler.Runbook.Service.{WriteMode, check_writable, write_document, write_version}
use smallstack_tabler.Runbook.Documents.{
  Put, has_meta_fields, with_meta, save_meta, mode_of, is_expected, update_document, put_document,
}
use smallstack_tabler.Runbook.Documents.Saved.{guard_of, runbook_of-eq}
use smallstack_tabler.Runbook.Documents.Upsert.{is_keyed-runbook}

guard_of-locked :
    (a : Actor) (bypass : Bool) (rb : Option Runbook)
    → is_superuser a ≡ false
    → bypass ≡ false
    → guard_of a bypass false rb ≡ ok tt
    → guard_of a bypass true rb ≡ raised document_locked
guard_of-locked a bypass rb u b h = ground arith

has_meta_fields-lock :
    (p : Put) (d : Document) → p.locked ≡ some true → d.locked ≡ false → has_meta_fields p d ≡ true
has_meta_fields-lock p d e f = rw (e, f, has_meta_fields) (ground arith)

save_meta-lock :
    (env : Env) (p : Put) (sec : Option Section) (d : Document) (s : State)
    → p.locked ≡ some true
    → d.locked ≡ false
    → save_meta env p sec d s
      ≡ (with_meta env p sec d d, write_document d.id (with_meta env p sec d) s)
unfolding save_meta
save_meta-lock env p sec d s e f =
    ap
      (λ b.
        if◌then◌else◌ {A = Document × State} b
          (with_meta env p sec d d, write_document d.id (with_meta env p sec d) s) (d, s))
      (has_meta_fields-lock p d e f)

check_writable-lock :
    (env : Env) (p : Put) (sec : Option Section) (d : Document) (s : State)
    → is_none d.runbook ≡ false
    → p.locked ≡ some true
    → d.locked ≡ false
    → is_superuser p.actor ≡ false
    → p.bypass_lock ≡ false
    → check_writable d p.actor p.bypass_lock s ≡ ok tt
    → check_writable (save_meta env p sec d s).0 p.actor p.bypass_lock (save_meta env p sec d s).1
      ≡ raised document_locked
unfolding check_writable can_view_doc can_edit_doc
check_writable-lock env p sec d s n e f u b h =
    ap (λ r. check_writable r.0 p.actor p.bypass_lock r.1) (save_meta-lock env p sec d s e f)
    ∙ ap₂ (guard_of p.actor p.bypass_lock) (ap (λ l. or_else l d.locked) e)
        (runbook_of-eq d _ _ _ env.now s _ n)
    ∙ guard_of-locked p.actor p.bypass_lock (runbook_of s d) u b
        (ap (λ l. guard_of p.actor p.bypass_lock l (runbook_of s d)) (sym f) ∙ h)

-- On a document that is not locked, an upsert that asks for the lock, by a caller that passes the
-- guard but is no superuser and does not bypass the lock, also the program itself, and that no other
-- test stops, raises the error of a locked document, and writes nothing.
pub put_document-lock :
    (env : Env) (runbook : RunbookRef) (key : String) (p : Put) (s : State) (rb : Runbook)
    (d : Document) (mode : WriteMode) (sec : Option Section)
    → resolve_runbook runbook s ≡ ok rb
    → find (is_keyed rb.id key) s.documents ≡ some d
    → check_writable d p.actor p.bypass_lock s ≡ ok tt
    → mode_of p.on_exists ≡ ok mode
    → is_expected p.expected_version d.version ≡ true
    → resolve_section rb p.section s ≡ ok sec
    → p.locked ≡ some true
    → d.locked ≡ false
    → is_superuser p.actor ≡ false
    → p.bypass_lock ≡ false
    → put_document env runbook key p s ≡ raised document_locked
unfolding put_document update_document write_version
put_document-lock env runbook key p s rb d mode sec r f c m x es l o u b =
    let keyed = is_keyed-runbook rb.id key d (find-test (is_keyed rb.id key) s.documents d f) in
    bind_ok _ r
    ∙ rw f (
        bind_ok _ c
        ∙ bind_ok _ m
        ∙ bind_ok _ (ap (λ t. require t version_conflict) x)
        ∙ bind_ok _ es
        ∙ bind_raised _ document_locked (check_writable-lock env p sec d s keyed l o u b c))

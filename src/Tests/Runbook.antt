-- ===== src/Tests/Runbook.antt =====
-- A private runbook with one document of two versions, and the theorems on documents at it.
use smallstack_tabler.Prelude.{
  ℕ, suc, ◌≤◌, max, ◌≡◌, refl, true, false, none, some, List, [], ◌∷◌, ◌++◌, arith, ◌==◌, any_row,
  find, filter_rows, count_where, pos,
}
use mathlib.Core.Path.{subst}
use mathlib.Core.Option.{some-injective}
use smallstack_tabler.Runbook.Model.{
  Text, Runbook, Document, DocumentVersion, State, ok, raised, Env, versions_of, document_not_found,
  version_not_found, document_locked,
}
use smallstack_tabler.Runbook.Permissions.{
  Actor, internal, user, viewable_documents, can_view_doc, can_edit_doc, can_view, can_edit,
  runbook_of, runbook_at, is_staff, is_owner, uid_of, is_superuser,
}
use smallstack_tabler.Runbook.Permissions.Viewable.{viewable_documents-can_view_doc}
use smallstack_tabler.Runbook.Lookup.{
  the_runbook, runbook_slug, no_section, by_uid, by_key, resolve_runbook, resolve_section,
  find_document, get_document,
}
use smallstack_tabler.Runbook.Service.{
  append, new_version, Note, check_writable, read_head, write_version,
}
use smallstack_tabler.Runbook.Service.Versions.{history, IsWf, KeyLaw}
use smallstack_tabler.Runbook.Service.Kept.{IsWritten}
use smallstack_tabler.Runbook.Service.Writing.{written_history, write_version-IsWritten}
use smallstack_tabler.Runbook.Documents.{
  apply, Put, put_document, archive_document, unarchive_document, delete_document, restore_version,
}
use smallstack_tabler.Runbook.Documents.Restore.{restore_version-read_head}
use smallstack_tabler.Runbook.Documents.Upsert.{put_document-get_document}
use smallstack_tabler.Runbook.Documents.Hidden.{hidden_document}
use smallstack_tabler.Runbook.Documents.Locking.{put_document-lock}
use smallstack_tabler.Runbook.Shelves.{move_document}
use smallstack_tabler.Runbook.Locked.Untouched.{IsUntouched}
use smallstack_tabler.Runbook.Retention.{
  Defaults, prune_versions, run_sweep, effective_policy, resolve_value, is_doomed, is_over_count,
  is_over_age, newest_first, insert_newest, slice_from, drop,
}
use smallstack_tabler.Runbook.Retention.Pruned.{IsPruned, prune_versions-IsPruned}
use smallstack_tabler.Runbook.Retention.Sweep.{run_sweep-archived}

abbrev greatest : List ℕ → ℕ
greatest [] = 0
greatest (k ∷ ks) = max k (greatest ks)

abbrev env : Env
env = record {
  now = 1000;
  new_key = λ ks. suc (greatest ks);
  new_uid = 777;
  slugify = λ t. t;
  restored_from = λ n. "Restored";
}

greater : (ks : List ℕ) (n : ℕ) → suc (greatest ks) ≤ n → any_row (λ x. x == n) ks ≡ false
unfolding any_row
greater [] n h = refl
greater (k ∷ ks) n h = ground (arith, greater ks n)

env-KeyLaw : KeyLaw env
env-KeyLaw ks = greater ks (suc (greatest ks)) (omega arith)

abbrev shelf : Runbook
shelf = record {
  id = 1;
  name = "Ops";
  slug = "ops";
  description = "";
  owner = some 5;
  is_public = false;
  is_template = false;
  default_max_versions = none;
  default_max_version_age_days = none;
  default_ttl_days = none;
}

abbrev page : Document
page = record {
  id = 10;
  uid = 100;
  runbook = some 1;
  section = none;
  key = some "page";
  title = "Page";
  description = "";
  current_version = some 21;
  version = 2;
  is_generated = true;
  doc_type = "";
  source = "";
  via = "web";
  created_by = some 5;
  is_archived = false;
  archived_at = none;
  locked = false;
  max_versions = some (pos 1);
  max_version_age_days = none;
  ttl_days = none;
  on_expire = "archive";
  updated_at = 500;
}

abbrev version_row : ℕ → ℕ → ℕ → Text → DocumentVersion
version_row i d n body = record {
  id = i;
  document = d;
  version = n;
  file = body;
  title = "Page";
  description = "";
  source = "";
  via = "web";
  created_by = some 5;
  created_at = 500;
}

abbrev first : DocumentVersion
first = version_row 20 10 1 (65 ∷ [])

abbrev state_with : Document → State
state_with d = record {
  runbooks = shelf ∷ [];
  sections = [];
  documents = d ∷ [];
  versions = first ∷ version_row 21 10 2 (66 ∷ []) ∷ [];
  images = [];
  events = [];
}

abbrev state : State
state = state_with page

abbrev locked_page : Document
locked_page = record page { locked = true }

abbrev archived_page : Document
archived_page = record page { is_archived = true }

abbrev owner : Actor
owner = user 5 false false

abbrev stranger : Actor
stranger = user 6 false false

abbrev note : Note
note = record { description = ""; source = ""; via = "web"; actor = owner; bypass_lock = false }

state-IsWf : IsWf state
unfolding versions_of filter_rows any_row
state-IsWf = record {
  unique_keys = (refl, (refl, tt));
  unique_documents = (refl, tt);
  owned = (refl, (refl, tt));
  heads = (
    record {
      row = version_row 21 10 2 (66 ∷ []);
      last = refl;
      has_key = refl;
      has_number = refl;
      greatest = (omega arith, (omega arith, tt));
    },
    tt,
  );
}

viewable_documents-can_view_doc_example :
    viewable_documents stranger state (page ∷ [])
    ≡ filter_rows (can_view_doc stranger state) (page ∷ [])
viewable_documents-can_view_doc_example =
    viewable_documents-can_view_doc stranger state (page ∷ []) (refl, tt)

owner_may_write : check_writable page owner false state ≡ ok tt
unfolding check_writable can_edit_doc can_edit runbook_of runbook_at find is_staff is_owner
    is_superuser
owner_may_write = refl

write_version-IsWritten_example :
    (r : Document × State) × (write_version env page (67 ∷ []) append note state ≡ ok r)
    × IsWritten (written_history append (67 ∷ []) (history 10 state)) page state r
unfolding find
write_version-IsWritten_example =
    write_version-IsWritten env page (67 ∷ []) append note state 21 env-KeyLaw state-IsWf refl refl
      owner_may_write

restore_version-read_head_example :
    (r : Document × State) × (restore_version env (by_uid 100) 1 "web" owner false state ≡ ok r)
    × IsWritten (history 10 state ++ (65 ∷ []) ∷ []) page state r
    × (read_head r.0 r.1 ≡ 65 ∷ [])
unfolding find find_document
restore_version-read_head_example =
    restore_version-read_head env (by_uid 100) 1 "web" owner false state page first env-KeyLaw
      state-IsWf refl refl refl owner_may_write

abbrev put : Put
put = record {
  body = 68 ∷ [];
  title = none;
  section = no_section;
  on_exists = apply new_version;
  expected_version = none;
  source = "";
  via = "api";
  is_generated = true;
  doc_type = "";
  locked = none;
  actor = owner;
  bypass_lock = false;
}

put_document-get_document_example :
    (r : Document × State) × (put_document env (runbook_slug "ops") "page" put state ≡ ok r)
    × (get_document (by_key (the_runbook shelf) "page") internal r.1 ≡ ok (r.0, 68 ∷ []))
    × IsWf r.1
unfolding find resolve_runbook resolve_section
put_document-get_document_example =
    put_document-get_document env (runbook_slug "ops") "page" put state shelf none env-KeyLaw
      state-IsWf refl refl owner_may_write refl refl refl

hidden_document_example :
    (get_document (by_uid 100) stranger state ≡ raised document_not_found)
    × (archive_document env (by_uid 100) stranger false state ≡ raised document_not_found)
    × (unarchive_document env (by_uid 100) stranger false state ≡ raised document_not_found)
    × (delete_document env (by_uid 100) true stranger false state ≡ raised document_not_found)
    × (move_document env (by_uid 100) none no_section stranger false state
        ≡ raised document_not_found)
    × (restore_version env (by_uid 100) 9 "web" stranger false state ≡ raised (version_not_found 9))
unfolding find can_view_doc can_view runbook_of runbook_at is_staff uid_of is_owner
hidden_document_example =
    hidden_document env 100 stranger state true 9 "web" none no_section refl
      (λ d e. subst (λ x. can_view_doc stranger state x ≡ false) (some-injective page d e) refl)

put_document-lock_example :
    put_document env (runbook_slug "ops") "page" (record put { locked = some true }) state
    ≡ raised document_locked
unfolding find resolve_runbook resolve_section is_superuser
put_document-lock_example =
    put_document-lock env (runbook_slug "ops") "page" (record put { locked = some true }) state
      shelf page new_version none refl refl owner_may_write refl refl refl refl refl refl refl

abbrev defaults : Defaults
defaults = record {
  generated_max_versions = some (pos 100);
  generated_max_version_age_days = none;
  generated_ttl_days = none;
}

prune_versions-IsPruned_example : IsPruned page state (prune_versions env defaults page state).1
unfolding find
prune_versions-IsPruned_example = prune_versions-IsPruned env defaults page state state-IsWf refl

archived-IsWf : IsWf (state_with archived_page)
unfolding any_row
archived-IsWf = record {
  unique_keys = state-IsWf.unique_keys;
  unique_documents = state-IsWf.unique_documents;
  owned = state-IsWf.owned;
  heads = state-IsWf.heads;
}

run_sweep-archived_example :
    IsUntouched 10 (state_with archived_page) (run_sweep env defaults (state_with archived_page)).1
unfolding find
run_sweep-archived_example =
    run_sweep-archived env defaults (state_with archived_page) archived_page archived-IsWf refl refl

-- The older of the two versions goes where one is to be kept.
prune_page : (prune_versions env defaults page state).0 ≡ 1
unfolding prune_versions effective_policy resolve_value runbook_at find versions_of filter_rows
    is_doomed is_over_count is_over_age newest_first insert_newest slice_from drop any_row
    count_where
prune_page = refl

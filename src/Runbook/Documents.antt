-- ===== src/Runbook/Documents.antt =====
-- apps/runbook/service.py: creating, upserting, archiving, restoring and deleting documents.
pub mod Restore
pub mod Hidden
pub mod Saved
pub mod Upsert
pub mod Locking
pub mod Created
use smallstack_tabler.Prelude.{
  ℕ, ◌+◌, String, Bool, true, false, not, ◌&&◌, ◌||◌, Option, none, some, List, [], ◌∷◌, ◌++◌, map,
  ◌==◌, str_eq, is_none, or_else, any_row, find, filter_rows, update_where, if◌then◌else◌,
}
use smallstack_tabler.Runbook.Model.{
  Text, Runbook, Section, Document, DocumentVersion, DocumentImage, created, State, Result, ok,
  raised, ◌>>=◌, ◌>>◌, require, or_raise, Env, version_not_found, document_already_exists,
  version_conflict, integrity_error, document_archived, document_image_attached, has_document_id,
  is_version_of,
}
use smallstack_tabler.Runbook.Permissions.{Actor, uid_of}
use smallstack_tabler.Runbook.Lookup.{
  RunbookRef, the_runbook, SectionRef, no_section, DocumentRef, the_document, resolve_runbook,
  resolve_section, is_keyed, find_document, check_runbook,
}
use smallstack_tabler.Runbook.Service.{
  WriteMode, new_version, emit, emit_written, write_document, check_writable, create_new_version,
  Note, write_version,
}

-- What a caller of `create_document` says of the new document.
pub record NewDocument : Type 0 where
  pub body : Text
  pub title : String
  pub key : Option String
  pub section : SectionRef
  pub description : String
  pub source : String
  pub via : String
  pub is_generated : Bool
  pub doc_type : String
  pub locked : Bool
  pub actor : Actor

abbrev pub section_id : Option Section → Option ℕ
section_id none = none
section_id (some x) = some x.id

-- The constraint `uniq_runbook_key`: a key is free in a runbook.
abbrev pub is_free_key : ℕ → Option String → State → Bool
is_free_key r none s = true
is_free_key r (some k) s = not (any_row (is_keyed r k) s.documents)

abbrev pub document_key : Env → State → ℕ
document_key env s = env.new_key (map (λ d. d.id) s.documents)

-- `Document.objects.create`, with the defaults of the model.
abbrev pub new_document : Env → Runbook → Option ℕ → NewDocument → State → Document
new_document env rb sec n s = record {
  id = document_key env s;
  uid = env.new_uid;
  runbook = some rb.id;
  section = sec;
  key = n.key;
  title = n.title;
  description = n.description;
  current_version = none;
  version = 1;
  is_generated = n.is_generated;
  doc_type = n.doc_type;
  source = n.source;
  via = n.via;
  created_by = uid_of n.actor;
  is_archived = false;
  archived_at = none;
  locked = n.locked;
  max_versions = none;
  max_version_age_days = none;
  ttl_days = none;
  on_expire = "archive";
  updated_at = env.now;
}

abbrev pub add_document : Document → State → State
add_document d s = record s { documents = s.documents ++ d ∷ [] }

unfoldable pub create_document : Env → RunbookRef → NewDocument → State → Result (Document × State)
create_document env runbook n s = do
  rb ← resolve_runbook runbook s
  check_runbook rb n.actor false s
  sec ← resolve_section rb n.section s
  require (is_free_key rb.id n.key s) integrity_error
  let doc = new_document env rb (section_id sec) n s
  (d, s') ← create_new_version env doc n.body "" n.source n.via n.actor (add_document doc s)
  ok (d, emit_written d created none n.actor n.source n.via s')

abbrev pub image_row : Env → ℕ → String → String → Actor → State → DocumentImage
image_row env d image alt a s = record {
  id = env.new_key (map (λ x. x.id) s.images);
  document = d;
  image = image;
  alt = alt;
  uploaded_by = uid_of a;
}

unfoldable pub attach_image :
    Env → DocumentRef → String → String → Actor → State → Result (DocumentImage × State)
attach_image env ref image alt a s = do
  d ← find_document ref s
  require (any_row (has_document_id d.id) s.documents) integrity_error
  let row = image_row env d.id image alt a s
  ok (row, emit (document_image_attached d.id row.id) (record s { images = s.images ++ row ∷ [] }))

abbrev pub put_away : Env → Document → Document
put_away env d = record d { is_archived = true; archived_at = some env.now; updated_at = env.now }

abbrev pub put_back : Env → Document → Document
put_back env d = record d { is_archived = false; archived_at = none; updated_at = env.now }

unfoldable pub archive_document :
    Env → DocumentRef → Actor → Bool → State → Result (Document × State)
archive_document env ref a bypass s = do
  d ← find_document ref s
  check_writable d a bypass s
  ok (
      if d.is_archived then (d, s) else (
        put_away env d,
        emit (document_archived d.id (uid_of a)) (write_document d.id (put_away env) s),
      ))

unfoldable pub unarchive_document :
    Env → DocumentRef → Actor → Bool → State → Result (Document × State)
unarchive_document env ref a bypass s = do
  d ← find_document ref s
  check_writable d a bypass s
  ok (if d.is_archived then (put_back env d, write_document d.id (put_back env) s) else (d, s))

-- The version of a document that has a number.
abbrev pub find_version : ℕ → ℕ → State → Option DocumentVersion
find_version i n s = find (λ v. is_version_of i v && (v.version == n)) s.versions

abbrev pub restore_note : Env → ℕ → String → Actor → Bool → Note
restore_note env n via a bypass = record {
  description = env.restored_from n;
  source = "";
  via = via;
  actor = a;
  bypass_lock = bypass;
}

unfoldable pub restore_version :
    Env → DocumentRef → ℕ → String → Actor → Bool → State → Result (Document × State)
restore_version env ref n via a bypass s = do
  d ← find_document ref s
  old ← or_raise (find_version d.id n s) (version_not_found n)
  write_version env d old.file new_version (restore_note env n via a bypass) s

-- `doc.delete()`, with the rows that the database deletes in its train.
abbrev pub remove_document : ℕ → State → State
remove_document i s = record s {
  documents = filter_rows (λ d. not (d.id == i)) s.documents;
  versions = filter_rows (λ v. not (v.document == i)) s.versions;
  images = filter_rows (λ x. not (x.document == i)) s.images;
}

unfoldable pub delete_or_archive :
    Env → Bool → Document → Actor → Bool → State → Result (Document × State)
delete_or_archive env true d a bypass s = ok (d, remove_document d.id s)
delete_or_archive env false d a bypass s = archive_document env (the_document d) a bypass s

unfoldable pub delete_document : Env → DocumentRef → Bool → Actor → Bool → State → Result State
delete_document env ref force a bypass s = do
  d ← find_document ref s
  check_writable d a bypass s
  (d', s') ← delete_or_archive env force d a bypass s
  ok s'

-- `OnExists`.
pub data OnExists : Type 0 where
  apply : WriteMode → OnExists
  fail : OnExists

-- What a caller of `put_document` says.
pub record Put : Type 0 where
  pub body : Text
  pub title : Option String
  pub section : SectionRef
  pub on_exists : OnExists
  pub expected_version : Option ℕ
  pub source : String
  pub via : String
  pub is_generated : Bool
  pub doc_type : String
  pub locked : Option Bool
  pub actor : Actor
  pub bypass_lock : Bool

-- `title or key`.
abbrev pub title_or : Option String → String → String
title_or none key = key
title_or (some t) key = if str_eq t "" then key else t

abbrev pub to_create : Put → String → NewDocument
to_create p key = record {
  body = p.body;
  title = title_or p.title key;
  key = some key;
  section = p.section;
  description = "";
  source = p.source;
  via = p.via;
  is_generated = p.is_generated;
  doc_type = p.doc_type;
  locked = or_else p.locked false;
  actor = p.actor;
}

abbrev pub mode_of : OnExists → Result WriteMode
mode_of (apply m) = ok m
mode_of fail = raised document_already_exists

abbrev pub is_expected : Option ℕ → ℕ → Bool
is_expected none n = true
is_expected (some e) n = n == e

-- The section that an upsert gives to a document that is there already.
abbrev pub new_section : SectionRef → Option Section → Option ℕ → Option ℕ
new_section no_section sec old = old
new_section _ sec old = section_id sec

abbrev pub is_section_given : SectionRef → Bool
is_section_given no_section = false
is_section_given _ = true

abbrev pub differs_from : Option Bool → Bool → Bool
differs_from none b = false
differs_from (some true) b = not b
differs_from (some false) b = b

-- Whether an upsert has columns to save besides those of the write.
abbrev pub has_meta_fields : Put → Document → Bool
has_meta_fields p d =
    not (str_eq (or_else p.title d.title) d.title)
    || (is_section_given p.section || differs_from p.locked d.locked)

abbrev pub with_meta : Env → Put → Option Section → Document → Document → Document
with_meta env p sec d x = record x {
  title = or_else p.title d.title;
  section = new_section p.section sec d.section;
  locked = or_else p.locked d.locked;
  updated_at = env.now;
}

-- The object and the row after the columns are saved.
unfoldable pub save_meta : Env → Put → Option Section → Document → State → Document × State
save_meta env p sec d s =
    if has_meta_fields p d
    then (with_meta env p sec d d, write_document d.id (with_meta env p sec d) s)
    else (d, s)

abbrev pub put_note : Put → Note
put_note p = record {
  description = "";
  source = p.source;
  via = p.via;
  actor = p.actor;
  bypass_lock = p.bypass_lock;
}

-- `put_document` on a document that is there.
unfoldable pub update_document : Env → Runbook → Put → Document → State → Result (Document × State)
update_document env rb p d s = do
  check_writable d p.actor p.bypass_lock s
  mode ← mode_of p.on_exists
  require (is_expected p.expected_version d.version) version_conflict
  sec ← resolve_section rb p.section s
  let (d', s') = save_meta env p sec d s
  write_version env d' p.body mode (put_note p) s'

unfoldable pub put_document : Env → RunbookRef → String → Put → State → Result (Document × State)
put_document env runbook key p s = do
  rb ← resolve_runbook runbook s
  elim (find (is_keyed rb.id key) s.documents) [
    | none ↦ create_document env (the_runbook rb) (to_create p key) s
    | some d ↦ update_document env rb p d s
  ]

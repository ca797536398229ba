-- ===== src/Runbook/Service.antt =====
-- apps/runbook/service.py: writing a version of a document, with the guard that every write passes.
-- A function takes the document as its caller read it, which may be stale.
pub mod Versions
pub mod Kept
pub mod Inserted
pub mod Overwritten
pub mod Writing
use smallstack_tabler.Prelude.{
  ℕ, ◌+◌, String, Bool, true, false, not, ◌&&◌, ◌||◌, Option, none, some, List, [], ◌∷◌, ◌++◌, map,
  ◌==◌, str_eq, is_none, any_row, find, update_where, if◌then◌else◌,
}
use smallstack_tabler.Runbook.Model.{
  Text, Document, DocumentVersion, ChangeType, versioned, overwritten, appended, append_versioned,
  document_written, Event, State, Result, ok, raised, ◌>>=◌, ◌>>◌, require, or_raise, Env,
  document_not_found, document_locked, not_authorized, assertion_error, does_not_exist,
  integrity_error, has_document_id, has_version_id, is_version_of, head_row,
}
use smallstack_tabler.Runbook.Permissions.{
  Actor, internal, anonymous, user, uid_of, is_superuser, can_view_doc, can_edit_doc,
}
use smallstack_tabler.Runbook.Text.{combined}

pub data WriteMode : Type 0 where
  new_version overwrite append append_version : WriteMode

abbrev pub file_of : Option DocumentVersion → Text
file_of none = []
file_of (some v) = v.file

-- `read_head`; a missing head row reads as the empty text.
unfoldable pub read_head : Document → State → Text
unfolding head_row
read_head d s = file_of (head_row d s)

abbrev pub is_internal : Actor → Bool
is_internal internal = true
is_internal _ = false

-- `_check_writable`.
unfoldable pub check_writable : Document → Actor → Bool → State → Result (Unit {0})
check_writable d a bypass_lock s =
    if not (is_internal a || bypass_lock) && not (can_edit_doc a s d)
    then (if not (can_view_doc a s d) then raised document_not_found else raised not_authorized)
    else if d.locked && (not bypass_lock && not (is_superuser a))
    then raised document_locked
    else ok tt

-- `_emit_written`: the event of a write, with the pks of the head and of the previous version.
abbrev pub emit : Event → State → State
emit e s = record s { events = s.events ++ e ∷ [] }

abbrev pub emit_written : Document → ChangeType → Option ℕ → Actor → String → String → State → State
emit_written d change previous a source via =
    emit (document_written d.id change d.current_version previous (uid_of a) source via)

-- The database refuses a row whose document is gone or has a version of this number already.
unfoldable pub is_insertable : ℕ → ℕ → State → Bool
is_insertable i n s =
    any_row (has_document_id i) s.documents
    && not (any_row (λ v. is_version_of i v && (v.version == n)) s.versions)

-- `_sync_head`: the caller's object, and the columns that it saves in the row.
abbrev pub sync_head : Env → ℕ → ℕ → Document → Document
sync_head env i n d = record d { current_version = some i; version = n; updated_at = env.now }

abbrev pub write_document : ℕ → (Document → Document) → State → State
write_document i f s = record s { documents = update_where (has_document_id i) f s.documents }

-- The number of the version that follows the head.
unfoldable pub next_version : Document → State → Result ℕ
unfolding head_row
next_version d s =
    if is_none d.current_version
    then ok 1
    else elim (head_row d s) [ none ↦ raised does_not_exist | some v ↦ ok (v.version + 1) ]

abbrev pub version_key : Env → State → ℕ
version_key env s = env.new_key (map (λ v. v.id) s.versions)

abbrev pub version_row :
    Env → Document → ℕ → ℕ → Text → String → String → String → Actor → DocumentVersion
version_row env d i n body description source via a = record {
  id = i;
  document = d.id;
  version = n;
  file = body;
  title = d.title;
  description = description;
  source = source;
  via = via;
  created_by = uid_of a;
  created_at = env.now;
}

-- `DocumentVersion.save` and `_sync_head` for the version of the number `n`.
unfoldable pub insert_version :
    Env → Document → ℕ → Text → String → String → String → Actor → State → Document × State
insert_version env d n body description source via a s =
    let i = version_key env s in
    (
      sync_head env i n d,
      write_document d.id (sync_head env i n) (record s {
        versions = s.versions ++ version_row env d i n body description source via a ∷ [];
      }),
    )

-- `create_new_version`.
unfoldable pub create_new_version :
    Env → Document → Text → String → String → String → Actor → State → Result (Document × State)
create_new_version env d body description source via a s = do
  n ← next_version d s
  require (is_insertable d.id n s) integrity_error
  ok (insert_version env d n body description source via a s)

-- What an overwrite leaves of the head: `if source: version.source = source`.
abbrev pub overwritten_row : Text → String → String → DocumentVersion → DocumentVersion
overwritten_row body source via v = record v {
  file = body;
  source = if str_eq source "" then v.source else source;
  via = via;
}

-- `_overwrite_head`. Of the document it saves the searched text, which is not modelled, and
-- `updated_at`.
unfoldable pub overwrite_head :
    Env → Document → Text → String → String → State → Result (Document × State)
unfolding head_row
overwrite_head env d body source via s =
    if is_none d.current_version then raised assertion_error else elim (head_row d s) [
      | none ↦ raised does_not_exist
      | some v ↦ ok (
        record d { updated_at = env.now },
        write_document d.id (λ x. record x { updated_at = env.now })
            (record s {
              versions =
                  update_where (has_version_id v.id) (overwritten_row body source via) s.versions;
            }),
      )
    ]

abbrev pub change_of : WriteMode → ChangeType
change_of new_version = versioned
change_of overwrite = overwritten
change_of append = appended
change_of append_version = append_versioned

-- The modes that snapshot a version name the head before the write.
abbrev pub previous_of : WriteMode → Document → Option ℕ
previous_of new_version d = d.current_version
previous_of append_version d = d.current_version
previous_of _ d = none

-- What a caller says of a write besides the document, the text and the mode.
pub record Note : Type 0 where
  pub description : String
  pub source : String
  pub via : String
  pub actor : Actor
  pub bypass_lock : Bool

-- The four branches of `write_version`.
unfoldable pub write_by_mode :
    Env → WriteMode → Document → Text → Note → State → Result (Document × State)
write_by_mode env new_version d body n s =
    create_new_version env d body n.description n.source n.via n.actor s
write_by_mode env overwrite d body n s = overwrite_head env d body n.source n.via s
write_by_mode env append d body n s =
    overwrite_head env d (combined (read_head d s) body) n.source n.via s
write_by_mode env append_version d body n s =
    create_new_version env d (combined (read_head d s) body) n.description n.source n.via n.actor s

unfoldable pub write_version :
    Env → Document → Text → WriteMode → Note → State → Result (Document × State)
write_version env d body mode n s = do
  check_writable d n.actor n.bypass_lock s
  (d', s') ← write_by_mode env mode d body n s
  ok (d', emit_written d' (change_of mode) (previous_of mode d) n.actor n.source n.via s')

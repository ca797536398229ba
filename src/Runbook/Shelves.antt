-- ===== src/Runbook/Shelves.antt =====
-- apps/runbook/service.py: creating runbooks and sections, publishing, and moving documents.
use smallstack_tabler.Prelude.{
  ℕ, String, Bool, true, false, not, ◌&&◌, Option, none, some, [], ◌∷◌, ◌++◌, map, ◌==◌, str_eq,
  any_row, find, update_where, ℤ, if◌then◌else◌,
}
use smallstack_tabler.Runbook.Model.{
  Runbook, Section, Document, State, Result, ok, ◌>>=◌, ◌>>◌, require, Env, runbook_already_exists,
  document_already_exists, slug_required, integrity_error, document_moved, has_runbook_id,
}
use smallstack_tabler.Runbook.Permissions.{Actor, uid_of}
use smallstack_tabler.Runbook.Lookup.{
  RunbookRef, SectionRef, DocumentRef, resolve_runbook, resolve_section, is_keyed, find_document,
  check_runbook,
}
use smallstack_tabler.Runbook.Service.{emit, write_document, check_writable}
use smallstack_tabler.Runbook.Documents.{section_id}

abbrev pub name_or : Option String → String → String
name_or none t = t
name_or (some n) t = if str_eq n "" then t else n

abbrev pub new_runbook : Env → String → Option String → String → Actor → Bool → State → Runbook
new_runbook env slug name description owner is_public s = record {
  id = env.new_key (map (λ r. r.id) s.runbooks);
  name = name_or name slug;
  slug = slug;
  description = description;
  owner = uid_of owner;
  is_public = is_public;
  is_template = false;
  default_max_versions = none;
  default_max_version_age_days = none;
  default_ttl_days = none;
}

unfoldable pub create_runbook :
    Env → String → Option String → String → Actor → Bool → State → Result (Runbook × State)
create_runbook env slug name description owner is_public s = do
  let t = env.slugify slug
  require (not (str_eq t "")) slug_required
  require (not (any_row (λ r. str_eq r.slug t) s.runbooks)) runbook_already_exists
  let r = new_runbook env t name description owner is_public s
  ok (r, record s { runbooks = s.runbooks ++ r ∷ [] })

abbrev pub has_section_slug : ℕ → String → Section → Bool
has_section_slug r t x = (x.runbook == r) && str_eq x.slug t

abbrev pub new_section_row : Env → Runbook → String → Option String → ℤ → State → Section
new_section_row env rb t name order s = record {
  id = env.new_key (map (λ y. y.id) s.sections);
  runbook = rb.id;
  name = name_or name t;
  slug = t;
  order = order;
}

-- `get_or_create` on the section of a slug.
unfoldable pub section_or_new : Env → Runbook → String → Option String → ℤ → State → Section × State
section_or_new env rb t name order s = elim (find (has_section_slug rb.id t) s.sections) [
  | some x ↦ (x, s)
  | none ↦
      let x = new_section_row env rb t name order s in
      (x, record s { sections = s.sections ++ x ∷ [] })
]

unfoldable pub create_section :
    Env → RunbookRef → String → Option String → ℤ → Actor → State → Result (Section × State)
create_section env runbook slug name order a s = do
  rb ← resolve_runbook runbook s
  check_runbook rb a false s
  let t = env.slugify slug
  require (not (str_eq t "")) slug_required
  ok (section_or_new env rb t name order s)

abbrev pub publish : Bool → Runbook → Runbook
publish public r = record r { is_public = public }

abbrev pub same_bool : Bool → Bool → Bool
same_bool true b = b
same_bool false b = not b

unfoldable pub set_runbook_public : RunbookRef → Bool → Actor → State → Result (Runbook × State)
set_runbook_public runbook public a s = do
  rb ← resolve_runbook runbook s
  check_runbook rb a false s
  ok (
      if same_bool rb.is_public public then (rb, s) else (
        publish public rb,
        record s { runbooks = update_where (has_runbook_id rb.id) (publish public) s.runbooks },
      ))

-- Where a document is put: no runbook, or a runbook and perhaps one of its sections.
pub record Place : Type 0 where
  pub runbook : Option ℕ
  pub section : Option ℕ
  pub key : Option String

-- `if doc.key` and the query for another document of that key.
abbrev pub collides : ℕ → Document → State → Bool
collides r d s = elim d.key [
  | none ↦ false
  | some k ↦ not (str_eq k "") && any_row (λ x. is_keyed r k x && not (x.id == d.id)) s.documents
]

-- The constraint `uniq_runbook_key` on the row that a move saves: also for the empty key.
abbrev pub is_free_place : ℕ → Place → State → Bool
is_free_place i p s = elim p.runbook [
  | none ↦ true
  | some r ↦ elim p.key [
    | none ↦ true
    | some k ↦ not (any_row (λ x. is_keyed r k x && not (x.id == i)) s.documents)
  ]
]

-- The place in a runbook that a move goes to, or the place of a detached document.
unfoldable pub target_place :
    Option RunbookRef → SectionRef → Document → Actor → Bool → State → Result Place
target_place none _ d a bypass s = ok (record { runbook = none; section = none; key = none })
target_place (some to_runbook) to_section d a bypass s = do
  rb ← resolve_runbook to_runbook s
  check_runbook rb a bypass s
  sec ← resolve_section rb to_section s
  require (not (collides rb.id d s)) document_already_exists
  ok (record { runbook = some rb.id; section = section_id sec; key = d.key })

abbrev pub placed : Env → Place → Document → Document
placed env p x = record x {
  runbook = p.runbook;
  section = p.section;
  key = p.key;
  updated_at = env.now;
}

unfoldable pub move_document :
    Env
    → DocumentRef
    → Option RunbookRef
    → SectionRef
    → Actor
    → Bool
    → State
    → Result (Document × State)
move_document env ref to_runbook to_section a bypass s = do
  d ← find_document ref s
  check_writable d a bypass s
  p ← target_place to_runbook to_section d a bypass s
  require (is_free_place d.id p s) integrity_error
  ok (
    placed env p d,
    emit (document_moved d.id d.runbook p.runbook) (write_document d.id (placed env p) s),
  )

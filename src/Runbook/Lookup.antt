-- ===== src/Runbook/Lookup.antt =====
-- apps/runbook/service.py: how a caller names a runbook, a section and a document, and reading.
use smallstack_tabler.Prelude.{
  ℕ, String, Bool, true, false, not, ◌&&◌, ◌||◌, Option, none, some, List, ◌==◌, str_eq,
  same_option, find, filter_rows, if◌then◌else◌,
}
use smallstack_tabler.Runbook.Model.{
  Text, Runbook, Section, Document, State, Result, ok, raised, ◌>>=◌, ◌>>◌, require, or_raise,
  runbook_not_found, section_not_found, document_not_found, not_authorized, has_document_id,
}
use smallstack_tabler.Runbook.Permissions.{
  Actor, can_view, can_edit, can_view_doc, viewable_documents, section_at,
}
use smallstack_tabler.Runbook.Service.{is_internal, read_head}

-- `RunbookRef`: an object or a slug.
pub data RunbookRef : Type 0 where
  the_runbook : Runbook → RunbookRef
  runbook_slug : String → RunbookRef

-- `SectionRef`.
pub data SectionRef : Type 0 where
  no_section : SectionRef
  the_section : Section → SectionRef
  section_slug : String → SectionRef

-- The arguments that name a document; `unnamed` is a call with none of them.
pub data DocumentRef : Type 0 where
  the_document : Document → DocumentRef
  by_uid by_id : ℕ → DocumentRef
  by_key : RunbookRef → String → DocumentRef
  unnamed : DocumentRef

-- `_resolve_runbook`.
unfoldable pub resolve_runbook : RunbookRef → State → Result Runbook
resolve_runbook (the_runbook r) s = ok r
resolve_runbook (runbook_slug t) s =
    or_raise (find (λ r. str_eq r.slug t) s.runbooks) runbook_not_found

-- `_resolve_section`.
unfoldable pub resolve_section : Runbook → SectionRef → State → Result (Option Section)
resolve_section r no_section s = ok none
resolve_section r (the_section x) s =
    if x.runbook == r.id then ok (some x) else raised section_not_found
resolve_section r (section_slug t) s =
    or_raise (find (λ x. (x.runbook == r.id) && str_eq x.slug t) s.sections) section_not_found
    >>= λ x. ok (some x)

-- A comparison of a nullable text with a text.
abbrev pub same_text : Option String → String → Bool
same_text none t = false
same_text (some k) t = str_eq k t

abbrev pub is_keyed : ℕ → String → Document → Bool
is_keyed i k d = same_option d.runbook i && same_text d.key k

-- The row that `_get_doc` reads, before the test of the viewer.
unfoldable pub find_document : DocumentRef → State → Result Document
find_document (the_document d) s = ok d
find_document (by_uid u) s = or_raise (find (λ d. d.uid == u) s.documents) document_not_found
find_document (by_id i) s = or_raise (find (has_document_id i) s.documents) document_not_found
find_document (by_key r k) s = do
  rb ← resolve_runbook r s
  or_raise (find (is_keyed rb.id k) s.documents) document_not_found
find_document unnamed s = raised document_not_found

-- `_get_doc`.
unfoldable pub get_doc : DocumentRef → Actor → State → Result Document
get_doc ref viewer s = do
  d ← find_document ref s
  require (is_internal viewer || can_view_doc viewer s d) document_not_found
  ok d

-- `get_document(..., with_body=True)`: the document and its text.
unfoldable pub get_document : DocumentRef → Actor → State → Result (Document × Text)
get_document ref viewer s = do d ← get_doc ref viewer s; ok (d, read_head d s)

-- The guard of a change to a runbook itself or to what it holds.
unfoldable pub check_runbook : Runbook → Actor → Bool → State → Result (Unit {0})
check_runbook r a bypass s =
    if not (is_internal a || bypass) && not (can_edit a (some r))
    then (if not (can_view a (some r)) then raised runbook_not_found else raised not_authorized)
    else ok tt

-- The filters of `list_documents` on one row. `matches` is the substring search of the database.
pub record Listing : Type 0 where
  pub runbook : Option RunbookRef
  pub section : SectionRef
  pub source : String
  pub doc_type : String
  pub query : String
  pub include_archived : Bool
  pub matches : String → Document → Bool

abbrev pub is_given : String → Bool
is_given t = not (str_eq t "")

abbrev pub has_slug : String → Option Section → Bool
has_slug t none = false
has_slug t (some x) = str_eq x.slug t

unfoldable pub in_section : SectionRef → State → Document → Bool
in_section no_section s d = true
in_section (the_section x) s d = same_option d.section x.id
in_section (section_slug t) s d = has_slug t (section_at d.section s)

abbrev pub in_runbook : Option Runbook → Document → Bool
in_runbook none d = true
in_runbook (some r) d = same_option d.runbook r.id

unfoldable pub is_listed : Listing → Option Runbook → State → Document → Bool
is_listed l rb s d =
    (l.include_archived || not d.is_archived)
    && (in_runbook rb d
        && (in_section l.section s d
            && ((not (is_given l.source) || str_eq d.source l.source)
                && ((not (is_given l.doc_type) || str_eq d.doc_type l.doc_type)
                    && (not (is_given l.query) || l.matches l.query d)))))

unfoldable pub resolve_optional : Option RunbookRef → State → Result (Option Runbook)
resolve_optional none s = ok none
resolve_optional (some r) s = resolve_runbook r s >>= λ rb. ok (some rb)

abbrev pub visible_documents : Actor → State → List Document
visible_documents viewer s =
    if is_internal viewer then s.documents else viewable_documents viewer s s.documents

-- `list_documents`, up to the order of the rows.
unfoldable pub list_documents : Listing → Actor → State → Result (List Document)
list_documents l viewer s = do
  rb ← resolve_optional l.runbook s
  ok (filter_rows (is_listed l rb s) (visible_documents viewer s))

-- ===== src/Runbook/Permissions.antt =====
-- apps/runbook/permissions.py: who may view and edit a runbook and what inherits from it.
pub mod Viewable
use smallstack_tabler.Prelude.{
  ℕ, Bool, true, false, ◌&&◌, ◌||◌, Option, none, some, List, [], ◌==◌, same_option, is_none, find,
  filter_rows, if◌then◌else◌,
}
use smallstack_tabler.Runbook.Model.{
  Runbook, Section, Document, State, has_runbook_id, has_section_id,
}

-- Who calls: the program itself (`None`), an anonymous request, or a user.
pub data Actor : Type 0 where
  internal anonymous : Actor
  user : ℕ → Bool → Bool → Actor

-- `_uid`.
unfoldable pub uid_of : Actor → Option ℕ
uid_of (user i staff superuser) = some i
uid_of _ = none

unfoldable pub is_staff : Actor → Bool
is_staff (user i staff superuser) = staff
is_staff _ = false

-- `getattr(actor, "is_superuser", False)`.
unfoldable pub is_superuser : Actor → Bool
is_superuser (user i staff superuser) = superuser
is_superuser _ = false

-- `owner_id is not None and owner_id == _uid(user)`.
unfoldable pub is_owner : Actor → Runbook → Bool
is_owner (user i staff superuser) r = same_option r.owner i
is_owner _ r = false

unfoldable pub can_view : Actor → Option Runbook → Bool
can_view a none = is_staff a
can_view a (some r) =
    if is_staff a
    then true
    else if is_none (uid_of a)
    then false
    else if r.is_public
    then true
    else is_owner a r

unfoldable pub can_edit : Actor → Option Runbook → Bool
can_edit a none = is_staff a
can_edit a (some r) = if is_staff a then true else is_owner a r

-- The rows that the foreign keys point at.
unfoldable pub runbook_at : Option ℕ → State → Option Runbook
runbook_at none s = none
runbook_at (some i) s = find (has_runbook_id i) s.runbooks

unfoldable pub section_at : Option ℕ → State → Option Section
section_at none s = none
section_at (some i) s = find (has_section_id i) s.sections

unfoldable pub runbook_of_section : Option Section → State → Option Runbook
runbook_of_section none s = none
runbook_of_section (some x) s = runbook_at (some x.runbook) s

unfoldable pub runbook_of : State → Document → Option Runbook
runbook_of s d =
    if is_none d.runbook
    then runbook_of_section (section_at d.section s) s
    else runbook_at d.runbook s

unfoldable pub can_view_doc : Actor → State → Document → Bool
can_view_doc a s d = can_view a (runbook_of s d)

unfoldable pub can_edit_doc : Actor → State → Document → Bool
can_edit_doc a s d = can_edit a (runbook_of s d)

-- `Q(is_public=True) | Q(owner_id=user.id)`.
unfoldable pub is_viewable : ℕ → Runbook → Bool
is_viewable i r = r.is_public || same_option r.owner i

unfoldable pub viewable_runbooks : Actor → List Runbook → List Runbook
viewable_runbooks (user i staff superuser) qs = if staff then qs else filter_rows (is_viewable i) qs
viewable_runbooks _ qs = []

-- The same test through the join with the document's own runbook.
unfoldable pub is_viewable_through : ℕ → Option Runbook → Bool
is_viewable_through i none = false
is_viewable_through i (some r) = is_viewable i r

unfoldable pub viewable_documents : Actor → State → List Document → List Document
viewable_documents (user i staff superuser) s qs =
    if staff then qs else filter_rows (λ d. is_viewable_through i (runbook_at d.runbook s)) qs
viewable_documents _ s qs = []

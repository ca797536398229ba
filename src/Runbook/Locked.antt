-- ===== src/Runbook/Locked.antt =====
-- apps/runbook/service.py: sequences of calls that no superuser makes and that do not bypass locks.
pub mod Untouched
pub mod Safe
pub mod Calls
use smallstack_tabler.Prelude.{
  ℕ, ◌≡◌, refl, String, Bool, true, false, not, ◌&&◌, Option, none, some, List, [], ◌∷◌, All,
}
use smallstack_tabler.Runbook.Model.{Text, Document, State, Result, ok, raised, ◌>>=◌, Env}
use smallstack_tabler.Runbook.Permissions.{Actor, is_superuser}
use smallstack_tabler.Runbook.Lookup.{
  RunbookRef, SectionRef, DocumentRef, the_document, find_document,
}
use smallstack_tabler.Runbook.Service.{WriteMode, Note, write_version}
use smallstack_tabler.Runbook.Documents.{
  Put, put_document, NewDocument, create_document, archive_document, unarchive_document,
  restore_version, delete_document,
}
use smallstack_tabler.Runbook.Shelves.{move_document}

-- A call of the service that changes documents.
pub data Call : Type 0 where
  write_call : DocumentRef → Text → WriteMode → Note → Call
  restore_call : DocumentRef → ℕ → String → Actor → Call
  archive_call unarchive_call : DocumentRef → Actor → Call
  delete_call : DocumentRef → Bool → Actor → Call
  move_call : DocumentRef → Option RunbookRef → SectionRef → Actor → Call
  put_call : RunbookRef → String → Put → Call
  create_call : RunbookRef → NewDocument → Call

abbrev pub state_of {ℓ} : {A : Type ℓ} → Result (A × State) → Result State
state_of m = m >>= λ r. ok r.1

unfoldable pub perform : Env → Call → State → Result State
perform env (write_call ref body mode n) s =
    state_of (find_document ref s >>= λ d. write_version env d body mode n s)
perform env (restore_call ref n via a) s = state_of (restore_version env ref n via a false s)
perform env (archive_call ref a) s = state_of (archive_document env ref a false s)
perform env (unarchive_call ref a) s = state_of (unarchive_document env ref a false s)
perform env (delete_call ref force a) s = delete_document env ref force a false s
perform env (move_call ref to sec a) s = state_of (move_document env ref to sec a false s)
perform env (put_call runbook key p) s = state_of (put_document env runbook key p s)
perform env (create_call runbook n) s = state_of (create_document env runbook n s)

-- A call that raises changes nothing.
abbrev pub state_after : Result State → State → State
state_after (ok t) s = t
state_after (raised e) s = s

unfoldable pub run_calls : Env → List Call → State → State
run_calls env [] s = s
run_calls env (c ∷ cs) s = run_calls env cs (state_after (perform env c s) s)

-- The document is read from the table within the call.
abbrev pub is_resolved : DocumentRef → Bool
is_resolved (the_document d) = false
is_resolved _ = true

-- The caller is no superuser, the call does not bypass the lock, and it reads the document itself.
abbrev pub IsPlain : Call → Type 0
IsPlain (write_call ref body mode n) =
    (is_superuser n.actor ≡ false) × (n.bypass_lock ≡ false) × (is_resolved ref ≡ true)
IsPlain (restore_call ref n via a) = (is_superuser a ≡ false) × (is_resolved ref ≡ true)
IsPlain (archive_call ref a) = (is_superuser a ≡ false) × (is_resolved ref ≡ true)
IsPlain (unarchive_call ref a) = (is_superuser a ≡ false) × (is_resolved ref ≡ true)
IsPlain (delete_call ref force a) = (is_superuser a ≡ false) × (is_resolved ref ≡ true)
IsPlain (move_call ref to sec a) = (is_superuser a ≡ false) × (is_resolved ref ≡ true)
IsPlain (put_call runbook key p) = (is_superuser p.actor ≡ false) × (p.bypass_lock ≡ false)
IsPlain (create_call runbook n) = Unit

-- ===== src/Runbook/Documents/Restore.antt =====
-- apps/runbook/service.py: `restore_version` as a round trip.
use smallstack_tabler.Prelude.{ℕ, ◌≡◌, String, Bool, some, [], ◌∷◌, ◌++◌}
use smallstack_tabler.Runbook.Model.{Document, DocumentVersion, State, ok, Env}
use smallstack_tabler.Runbook.Permissions.{Actor}
use smallstack_tabler.Runbook.Lookup.{DocumentRef, find_document}
use smallstack_tabler.Runbook.Service.{read_head, check_writable}
use smallstack_tabler.Runbook.Service.Versions.{history, IsWf, IsFresh, KeyLaw}
use smallstack_tabler.Runbook.Service.Kept.{IsWritten}
use smallstack_tabler.Runbook.Service.Writing.{write_version-snapshot, read_head-snapshot}
use smallstack_tabler.Runbook.Documents.{find_version, restore_note, restore_version}

-- In a well-formed state, for a document as the table holds it, a number that one of its versions
-- has, and a caller that passes the guard, `restore_version` succeeds. The document then reads as
-- that version did, and its history is the old one with that text added: no version is rewritten,
-- also of no other document.
pub restore_version-read_head :
    (env : Env) (ref : DocumentRef) (n : ℕ) (via : String) (a : Actor) (bypass : Bool) (s : State)
    (d : Document) (old : DocumentVersion)
    → KeyLaw env
    → IsWf s
    → find_document ref s ≡ ok d
    → IsFresh d s
    → find_version d.id n s ≡ some old
    → check_writable d a bypass s ≡ ok tt
    → (r : Document × State) × (restore_version env ref n via a bypass s ≡ ok r)
      × IsWritten (history d.id s ++ old.file ∷ []) d s r
      × (read_head r.0 r.1 ≡ old.file)
unfolding restore_version
restore_version-read_head env ref n via a bypass s d old law w e h o c =
    let (r, q, k) =
      write_version-snapshot env d old.file (restore_note env n via a bypass) s law w h c in
    (r, rw (e, o) q, k, read_head-snapshot d s r (history d.id s) old.file k)

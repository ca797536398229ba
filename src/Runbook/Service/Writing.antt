-- ===== src/Runbook/Service/Writing.antt =====
-- apps/runbook/service.py: `write_version` against the history of a document as a list of texts.
use smallstack_tabler.Prelude.{ℕ, ◌≡◌, refl, ap, ◌∙◌, subst, some, List, [], ◌∷◌, ◌++◌, set_last}
use smallstack_tabler.Runbook.Model.{Text, Document, State, ok, Env}
use smallstack_tabler.Runbook.Text.{combined}
use smallstack_tabler.Runbook.Service.{
  WriteMode, new_version, overwrite, append, append_version, read_head, check_writable,
  create_new_version, overwrite_head, Note, write_by_mode, write_version, emit_written, change_of,
  previous_of,
}
use smallstack_tabler.Runbook.Service.Versions.{
  history, IsWf, IsFresh, KeyLaw, last_body, read_head-last_body,
}
use smallstack_tabler.Runbook.Service.Kept.{IsWritten, emit-IsWritten}
use smallstack_tabler.Runbook.Service.Inserted.{create_new_version-IsWritten}
use smallstack_tabler.Runbook.Service.Overwritten.{overwrite_head-IsWritten}

-- The history of a document as a list of texts, and what each mode makes of it.
abbrev pub written_history : WriteMode → Text → List Text → List Text
written_history new_version body h = h ++ body ∷ []
written_history overwrite body h = set_last (λ _. body) h
written_history append body h = set_last (λ _. combined (last_body h) body) h
written_history append_version body h = h ++ combined (last_body h) body ∷ []

-- The write of one mode, on the object that the table holds and with a head to write on.
write_by_mode-IsWritten :
    (env : Env) (mode : WriteMode) (d : Document) (body : Text) (n : Note) (s : State) (i : ℕ)
    → KeyLaw env
    → IsWf s
    → IsFresh d s
    → d.current_version ≡ some i
    → (r : Document × State) × (write_by_mode env mode d body n s ≡ ok r)
      × IsWritten (written_history mode body (history d.id s)) d s r
unfolding write_by_mode
write_by_mode-IsWritten env new_version d body n s i law w h e =
    create_new_version-IsWritten env d body n.description n.source n.via n.actor s law w h
write_by_mode-IsWritten env overwrite d body n s i law w h e =
    overwrite_head-IsWritten env d i body n.source n.via s w h e
write_by_mode-IsWritten env append d body n s i law w h e =
    subst
      (λ t.
        (r : Document × State) × (overwrite_head env d (combined (read_head d s) body) n.source
            n.via s
          ≡ ok r)
        × IsWritten (set_last (λ _. combined t body) (history d.id s)) d s r)
      (read_head-last_body d s w h)
      (overwrite_head-IsWritten env d i (combined (read_head d s) body) n.source n.via s w h e)
write_by_mode-IsWritten env append_version d body n s i law w h e =
    subst
      (λ t.
        (r : Document × State) × (create_new_version env d (combined (read_head d s) body)
            n.description n.source n.via n.actor s
          ≡ ok r)
        × IsWritten (history d.id s ++ combined t body ∷ []) d s r)
      (read_head-last_body d s w h)
      (create_new_version-IsWritten env d (combined (read_head d s) body) n.description n.source
        n.via n.actor s law w h)

-- The event that a write emits is all that it adds to the write of its mode.
pub emitted-IsWritten :
    (env : Env) (d : Document) (body : Text) (mode : WriteMode) (n : Note) (s : State)
    (own : List Text)
    → check_writable d n.actor n.bypass_lock s ≡ ok tt
    → (r : Document × State) × (write_by_mode env mode d body n s ≡ ok r) × IsWritten own d s r
    → (r : Document × State) × (write_version env d body mode n s ≡ ok r) × IsWritten own d s r
unfolding write_version
emitted-IsWritten env d body mode n s own c (r, q, k) = (
  (r.0, emit_written r.0 (change_of mode) (previous_of mode d) n.actor n.source n.via r.1),
  rw (c, q, write_version) refl,
  emit-IsWritten own d s r _ k,
)

-- A snapshot needs no head.
pub write_version-snapshot :
    (env : Env) (d : Document) (body : Text) (n : Note) (s : State)
    → KeyLaw env
    → IsWf s
    → IsFresh d s
    → check_writable d n.actor n.bypass_lock s ≡ ok tt
    → (r : Document × State) × (write_version env d body new_version n s ≡ ok r)
      × IsWritten (history d.id s ++ body ∷ []) d s r
unfolding write_by_mode
write_version-snapshot env d body n s law w h c =
    emitted-IsWritten env d body new_version n s (history d.id s ++ body ∷ []) c
      (create_new_version-IsWritten env d body n.description n.source n.via n.actor s law w h)

last_body-append : (bs : List Text) (b : Text) → last_body (bs ++ b ∷ []) ≡ b
last_body-append [] b = refl
last_body-append (x ∷ []) b = refl
last_body-append (x ∷ y ∷ ys) b = last_body-append (y ∷ ys) b

-- After a snapshot the head reads as the new text.
pub read_head-snapshot :
    (d : Document) (s : State) (r : Document × State) (hs : List Text) (body : Text)
    → IsWritten (hs ++ body ∷ []) d s r
    → read_head r.0 r.1 ≡ body
read_head-snapshot d s r hs body k =
    read_head-last_body r.0 r.1 k.wf k.fresh
    ∙ ap (λ i. last_body (history i r.1)) k.same_document
    ∙ ap last_body k.is_own
    ∙ last_body-append hs body

-- In a well-formed state, on a document as the table holds it, which has a head, and for a caller
-- that passes the guard, `write_version` succeeds in every mode. It does to the texts of the
-- document's versions what the mode does to a list of texts: a snapshot adds the new text, an
-- overwrite replaces the last one, an append combines the new text with the last one. It leaves the
-- versions of all other documents as they were, the state is well-formed again, and the returned
-- object is what the table holds.
pub write_version-IsWritten :
    (env : Env) (d : Document) (body : Text) (mode : WriteMode) (n : Note) (s : State) (i : ℕ)
    → KeyLaw env
    → IsWf s
    → IsFresh d s
    → d.current_version ≡ some i
    → check_writable d n.actor n.bypass_lock s ≡ ok tt
    → (r : Document × State) × (write_version env d body mode n s ≡ ok r)
      × IsWritten (written_history mode body (history d.id s)) d s r
write_version-IsWritten env d body mode n s i law w h e c =
    emitted-IsWritten env d body mode n s (written_history mode body (history d.id s)) c
      (write_by_mode-IsWritten env mode d body n s i law w h e)

-- ===== src/Runbook/Locked/Untouched.antt =====
-- apps/runbook/service.py: what one operation on a document leaves of the others.
use smallstack_tabler.Prelude.{
  ℕ, ◌≡◌, refl, sym, ap, ◌∙◌, subst, String, Bool, true, false, not, none, some, List, [], ◌∷◌,
  arith, ◌==◌, ==→eq, is_none, find, any_row, filter_rows, All-map, filter_rows-All,
  Unique-filter_rows, same_key, Bool-cases, Option-cases, inl, inr, if◌then◌else◌,
}
use smallstack_tabler.Runbook.Model.{
  Event, Text, Document, DocumentVersion, State, ok, raised, >>=-eq-ok, Env, has_document_id,
  versions_of, assertion_error,
}
use smallstack_tabler.Runbook.Permissions.{Actor, is_superuser}
use smallstack_tabler.Runbook.Service.{
  WriteMode, new_version, overwrite, append, append_version, Note, read_head, check_writable, emit,
  write_document, overwrite_head, write_by_mode, write_version,
}
use smallstack_tabler.Runbook.Service.Versions.{
  version_id, document_id, HeadAt, HasHead, IsWf, IsFresh, KeyLaw,
}
use smallstack_tabler.Runbook.Service.Kept.{
  IsWritten, heads-written, Unique-written, IsOwned-written, spared-written,
}
use smallstack_tabler.Runbook.Service.Writing.{
  write_version-IsWritten, write_version-snapshot, emitted-IsWritten,
}
use smallstack_tabler.Runbook.Service.Inserted.{create_new_version-IsWritten}
use smallstack_tabler.Runbook.Text.{combined}
use smallstack_tabler.Runbook.Documents.{remove_document}

-- The state is well-formed, and the document `i` and its versions are as they were.
pub record IsUntouched (i : ℕ) (s t : State) : Type 0 where
  pub wf : IsWf t
  pub same_row : find (has_document_id i) t.documents ≡ find (has_document_id i) s.documents
  pub same_versions : versions_of i t.versions ≡ versions_of i s.versions

pub IsUntouched-refl : (i : ℕ) (s : State) → IsWf s → IsUntouched i s s
IsUntouched-refl i s w = record { wf = w; same_row = refl; same_versions = refl }

pub IsUntouched-trans :
    (i : ℕ) (s t u : State) → IsUntouched i s t → IsUntouched i t u → IsUntouched i s u
IsUntouched-trans i s t u a b = record {
  wf = b.wf;
  same_row = b.same_row ∙ a.same_row;
  same_versions = b.same_versions ∙ a.same_versions;
}

pub IsWritten-IsUntouched :
    (i : ℕ) (own : List Text) (d : Document) (s : State) (r : Document × State)
    → (d.id == i) ≡ false
    → IsWritten own d s r
    → IsUntouched i s r.1
IsWritten-IsUntouched i own d s r n k = record {
  wf = k.wf;
  same_row = k.spared i n;
  same_versions = k.others i n;
}

-- A write to columns other than the key and the head.
pub columns-IsUntouched :
    (i j : ℕ) (f : Document → Document) (s : State)
    → (j == i) ≡ false
    → ((x : Document) → (f x).id ≡ x.id)
    → ((x : Document) → HasHead s.versions x → HasHead s.versions (f x))
    → IsWf s
    → IsUntouched i s (write_document j f s)
columns-IsUntouched i j f s n k hd w = record {
  wf = record {
    unique_keys = w.unique_keys;
    unique_documents = Unique-written j f s.documents k w.unique_documents;
    owned = IsOwned-written j f s.documents s.versions k w.owned;
    heads = heads-written j f s.versions s.versions s.documents (λ x e. hd x) (λ m e. refl) w.heads;
  };
  same_row = spared-written j i f s.documents k n;
  same_versions = refl;
}

-- An event changes no table.
pub emit-IsUntouched :
    (i : ℕ) (e : Event) (s t : State) → IsUntouched i s t → IsUntouched i s (emit e t)
emit-IsUntouched i e s t u = record {
  wf = record {
    unique_keys = u.wf.unique_keys;
    unique_documents = u.wf.unique_documents;
    owned = u.wf.owned;
    heads = u.wf.heads;
  };
  same_row = u.same_row;
  same_versions = u.same_versions;
}

-- A guard that a caller passes who is no superuser and bypasses nothing.
pub check_writable-unlocked :
    (d : Document) (a : Actor) (bypass : Bool) (s : State)
    → check_writable d a bypass s ≡ ok tt
    → is_superuser a ≡ false
    → bypass ≡ false
    → d.locked ≡ false
unfolding check_writable
check_writable-unlocked d a bypass s h u b = ground arith

-- What such a call writes to is another document than a locked one.
pub other_document :
    (d e : Document) (i : ℕ) (a : Actor) (bypass : Bool) (s : State)
    → find (has_document_id i) s.documents ≡ some d
    → d.locked ≡ true
    → IsFresh e s
    → check_writable e a bypass s ≡ ok tt
    → is_superuser a ≡ false
    → bypass ≡ false
    → (e.id == i) ≡ false
other_document d e i a bypass s h l f c u b = elim (Bool-cases (e.id == i)) [
  | inr n ↦ n
  | inl t ↦
      let same : some e ≡ some d =
        sym f ∙ ap (λ k. find (has_document_id k) s.documents) (==→eq e.id i t) ∙ h in
      let open_lock = check_writable-unlocked e a bypass s c u b in
      let clash : true ≡ false = sym l ∙ locked-same e d same ∙ open_lock in cc
]
  where
    locked-same : (x y : Document) → some x ≡ some y → y.locked ≡ x.locked
    locked-same x y p = cc

find-left :
    (i j : ℕ) (ds : List Document)
    → (j == i) ≡ false
    → find (has_document_id i) (filter_rows (λ d. not (d.id == j)) ds) ≡ find (has_document_id i) ds
unfolding find filter_rows
find-left i j [] n = refl
find-left i j (d ∷ ds) n = elim (Bool-cases (d.id == j)) [
  | inr f ↦ rw f (ap (λ r. if d.id == i then some d else r) (find-left i j ds n))
  | inl e ↦ let out : (d.id == i) ≡ false = ground arith in rw (e, out) (find-left i j ds n)
]

any_row-left :
    (i j : ℕ) (ds : List Document)
    → (j == i) ≡ false
    → any_row (has_document_id i) (filter_rows (λ d. not (d.id == j)) ds)
      ≡ any_row (has_document_id i) ds
unfolding any_row filter_rows
any_row-left i j [] n = refl
any_row-left i j (d ∷ ds) n = ground (arith, any_row-left i j ds n)

versions_of-left :
    (i j : ℕ) (vs : List DocumentVersion)
    → (j == i) ≡ false
    → versions_of i (filter_rows (λ v. not (v.document == j)) vs) ≡ versions_of i vs
unfolding versions_of filter_rows
versions_of-left i j [] n = refl
versions_of-left i j (v ∷ vs) n = elim (Bool-cases (v.document == j)) [
  | inr f ↦ rw f (ap (λ r. if v.document == i then v ∷ r else r) (versions_of-left i j vs n))
  | inl e ↦
      let out : (v.document == i) ≡ false = ground arith in rw (e, out) (versions_of-left i j vs n)
]

not_same : (a b : ℕ) → not (a == b) ≡ true → (b == a) ≡ false
not_same a b h = ground arith

-- A document is removed with its versions.
pub remove_document-IsUntouched :
    (i j : ℕ) (s : State) → (j == i) ≡ false → IsWf s → IsUntouched i s (remove_document j s)
remove_document-IsUntouched i j s n w = record {
  wf = record {
    unique_keys = Unique-filter_rows (same_key version_id) _ s.versions w.unique_keys;
    unique_documents = Unique-filter_rows (same_key document_id) _ s.documents w.unique_documents;
    owned = filter_rows-All _ _ s.versions (
        All-map _ _ s.versions
          (λ v o q. any_row-left v.document j s.documents (not_same v.document j q) ∙ o) w.owned);
    heads = filter_rows-All _ _ s.documents (
        All-map _ _ s.documents
          (λ d h q.
            subst (HeadAt d.current_version d.version)
              (sym (versions_of-left d.id j s.versions (not_same d.id j q))) h)
          w.heads);
  };
  same_row = find-left i j s.documents n;
  same_versions = versions_of-left i j s.versions n;
}

pub ok-injective {ℓ} : {A : Type ℓ} (a b : A) → ok a ≡ ok b → a ≡ b
ok-injective a b h = cc

pub write_version-check :
    (env : Env) (d : Document) (body : Text) (mode : WriteMode) (n : Note) (s : State)
    (r : Document × State)
    → write_version env d body mode n s ≡ ok r
    → check_writable d n.actor n.bypass_lock s ≡ ok tt
unfolding write_version
write_version-check env d body mode n s r e = (>>=-eq-ok _ _ e).1

overwrite_head-headless :
    (env : Env) (d : Document) (body : Text) (source via : String) (s : State)
    → d.current_version ≡ none
    → overwrite_head env d body source via s ≡ raised assertion_error
unfolding overwrite_head
overwrite_head-headless env d body source via s h = rw (ap is_none h, overwrite_head) refl

-- A write that succeeded, in any mode, is one of the writes that are described.
write_version-some :
    (env : Env) (d : Document) (body : Text) (mode : WriteMode) (n : Note) (s : State)
    (r : Document × State)
    → KeyLaw env
    → IsWf s
    → IsFresh d s
    → write_version env d body mode n s ≡ ok r
    → (own : List Text) × (t : Document × State) × (write_version env d body mode n s ≡ ok t)
      × IsWritten own d s t
unfolding write_version write_by_mode
write_version-some env d body mode n s r law w h e = elim (Option-cases d.current_version) [
  | inr (j, f) ↦
      let (t, q, k) = write_version-IsWritten env d body mode n s j law w h f c in (_, t, q, k)
  | inl f ↦ headless mode f e
]
  where
    c : check_writable d n.actor n.bypass_lock s ≡ ok tt
    c = write_version-check env d body mode n s r e

    Some : WriteMode → Type 0
    Some m =
        (own : List Text) × (t : Document × State) × (write_version env d body m n s ≡ ok t)
        × IsWritten own d s t

    headless :
        (m : WriteMode) → d.current_version ≡ none → write_version env d body m n s ≡ ok r → Some m
    headless new_version f q =
        let (t, p, k) = write_version-snapshot env d body n s law w h c in (_, t, p, k)
    headless append_version f q =
        let (t, p, k) = emitted-IsWritten env d body append_version n s _ c (
          create_new_version-IsWritten env d (combined (read_head d s) body) n.description n.source
            n.via n.actor s law w h) in
        (_, t, p, k)
    headless overwrite f q =
        let contrary : raised assertion_error ≡ ok r =
          rw (c, overwrite_head-headless env d body n.source n.via s f) at q in
        cc
    headless append f q =
        let contrary : raised assertion_error ≡ ok r =
          rw (c, overwrite_head-headless env d (combined (read_head d s) body) n.source n.via s f)
            at q in
        cc

-- A write that succeeded, in any mode, left all other documents.
pub write_version-IsUntouched :
    (env : Env) (i : ℕ) (d : Document) (body : Text) (mode : WriteMode) (n : Note) (s : State)
    (r : Document × State)
    → KeyLaw env
    → IsWf s
    → IsFresh d s
    → (d.id == i) ≡ false
    → write_version env d body mode n s ≡ ok r
    → IsUntouched i s r.1
write_version-IsUntouched env i d body mode n s r law w h o e =
    let (own, t, q, k) = write_version-some env d body mode n s r law w h e in
    subst (λ u. IsUntouched i s u.1) (ok-injective t r (sym q ∙ e))
      (IsWritten-IsUntouched i own d s t o k)

-- ===== src/Runbook/Retention/Sweep.antt =====
-- apps/runbook/retention.py: what the sweep leaves of the documents that it does not visit.
use smallstack_tabler.Prelude.{
  ℕ, ◌≡◌, refl, sym, ap, ◌∙◌, Bool, true, false, not, some, List, [], ◌∷◌, ◌==◌, ==→eq, str_eq,
  find, any_row, All, All-map, filter_rows-All, Unique, Unique-filter_rows, same_key, All-found,
  any_row-All, Bool-cases, inl, inr, if◌then◌else◌,
}
use smallstack_tabler.Runbook.Model.{Document, State, Env, has_document_id}
use smallstack_tabler.Runbook.Service.{write_document}
use smallstack_tabler.Runbook.Service.Versions.{document_id, IsWf, IsFresh}
use smallstack_tabler.Runbook.Documents.{put_away, remove_document}
use smallstack_tabler.Runbook.Locked.Untouched.{
  IsUntouched, IsUntouched-refl, IsUntouched-trans, emit-IsUntouched, columns-IsUntouched,
  remove_document-IsUntouched,
}
use smallstack_tabler.Runbook.Retention.{
  Defaults, effective_policy, prune_versions, is_expired, expire_document, sweep_one, sweep_rows,
  run_sweep,
}
use smallstack_tabler.Runbook.Retention.Pruned.{prune_versions-IsPruned}

expire_document-IsUntouched :
    (env : Env) (c : Defaults) (d : Document) (i : ℕ) (s : State)
    → IsWf s
    → (d.id == i) ≡ false
    → IsUntouched i s (expire_document env c d s)
unfolding expire_document
expire_document-IsUntouched env c d i s w n =
    emit-IsUntouched i _ s _ (by_action (str_eq (effective_policy c d s).on_expire "delete"))
  where
    by_action :
        (b : Bool)
        → IsUntouched i s
            (if b then remove_document d.id s else write_document d.id (put_away env) s)
    by_action true = remove_document-IsUntouched i d.id s n w
    by_action false = columns-IsUntouched i d.id (put_away env) s n (λ x. refl) (λ x h. h) w

prune_versions-IsUntouched :
    (env : Env) (c : Defaults) (d : Document) (i : ℕ) (s : State)
    → IsWf s
    → IsFresh d s
    → (d.id == i) ≡ false
    → IsUntouched i s (prune_versions env c d s).1
prune_versions-IsUntouched env c d i s w h n =
    let p = prune_versions-IsPruned env c d s w h in
    record {
      wf = p.wf;
      same_row = ap (find (has_document_id i)) p.same_documents;
      same_versions = p.others i n;
    }

sweep_one-IsUntouched :
    (env : Env) (c : Defaults) (d : Document) (i : ℕ) (s : State)
    → IsWf s
    → IsFresh d s
    → (d.id == i) ≡ false
    → IsUntouched i s (sweep_one env c d s).1
unfolding sweep_one
sweep_one-IsUntouched env c d i s w h n =
    let u = prune_versions-IsUntouched env c d i s w h n in
    let t = (prune_versions env c d s).1 in
    elim (Bool-cases (is_expired c env.now d t)) [
      | inr f ↦ rw f u
      | inl e ↦ rw e (IsUntouched-trans i s t _ u (expire_document-IsUntouched env c d i t u.wf n))
    ]

-- The documents that are still to be visited are as the table holds them.
IsFresh-All :
    (d : Document) (ds : List Document) (s t : State)
    → ((i : ℕ) → (d.id == i) ≡ false → IsUntouched i s t)
    → any_row (same_key document_id d) ds ≡ false
    → All (λ x. IsFresh x s) ds
    → All (λ x. IsFresh x t) ds
IsFresh-All d ds s t k a h = go ds (any_row-All (same_key document_id d) ds a) h
  where
    go :
        (xs : List Document)
        → All (λ x. same_key document_id d x ≡ false) xs
        → All (λ x. IsFresh x s) xs
        → All (λ x. IsFresh x t) xs
    go [] a h = tt
    go (x ∷ xs) a h = ((k x.id a.0).same_row ∙ h.0, go xs a.1 h.1)

sweep_rows-IsUntouched :
    (env : Env) (c : Defaults) (ds : List Document) (i : ℕ) (s : State)
    → IsWf s
    → Unique (same_key document_id) ds
    → All (λ x. IsFresh x s) ds
    → All (λ x. (x.id == i) ≡ false) ds
    → IsUntouched i s (sweep_rows env c ds s).1
unfolding sweep_rows
sweep_rows-IsUntouched env c [] i s w u f n = IsUntouched-refl i s w
sweep_rows-IsUntouched env c (d ∷ ds) i s w u f n =
    let t = (sweep_one env c d s).1 in
    let first = sweep_one-IsUntouched env c d i s w f.0 n.0 in
    IsUntouched-trans i s t _ first (
      sweep_rows-IsUntouched env c ds i t first.wf u.1
        (IsFresh-All d ds s t (λ j m. sweep_one-IsUntouched env c d j s w f.0 m) u.0 f.1) n.1)

-- In a well-formed state, the sweep over all live documents, with any settings, leaves each archived
-- document and its versions as they were, and the state is well-formed again: every document that
-- is left has its head, however many versions were pruned and documents deleted on the way.
pub run_sweep-archived :
    (env : Env) (c : Defaults) (s : State) (x : Document)
    → IsWf s
    → IsFresh x s
    → x.is_archived ≡ true
    → IsUntouched x.id s (run_sweep env c s).1
unfolding run_sweep
run_sweep-archived env c s x w h a =
    sweep_rows-IsUntouched env c _ x.id s w
      (Unique-filter_rows (same_key document_id) _ s.documents w.unique_documents)
      (filter_rows-All _ _ s.documents (
        All-map _ _ s.documents (λ d f q. f)
          (All-found document_id s.documents w.unique_documents)))
      (filter_rows-All _ _ s.documents
        (All-map _ _ s.documents live (All-found document_id s.documents w.unique_documents)))
  where
    same_flag : (y z : Document) → some y ≡ some z → y.is_archived ≡ z.is_archived
    same_flag y z p = cc

    live : (d : Document) → IsFresh d s → not d.is_archived ≡ true → (d.id == x.id) ≡ false
    live d f q = elim (Bool-cases (d.id == x.id)) [
      | inr n ↦ n
      | inl e ↦
          let flag =
            same_flag d x
              (sym f ∙ ap (λ k. find (has_document_id k) s.documents) (==→eq d.id x.id e) ∙ h) in
          let clash : false ≡ true = ap not (sym a ∙ sym flag) ∙ q in cc
    ]

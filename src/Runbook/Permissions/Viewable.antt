-- ===== src/Runbook/Permissions/Viewable.antt =====
-- apps/runbook/permissions.py: the querysets against the checks of one object.
use smallstack_tabler.Prelude.{
  ℕ, ◌≡◌, refl, sym, ap, ◌∙◌, Bool, true, false, not, ◌||◌, Option, none, some, List, [], ◌∷◌,
  arith, is_none, filter_rows, filter_rows-eq, filter_rows-true, filter_rows-false, All,
  Option-cases, inl, inr,
}
use smallstack_tabler.Runbook.Model.{Runbook, Document, State}
use smallstack_tabler.Runbook.Permissions.{
  Actor, internal, anonymous, user, uid_of, is_staff, is_owner, can_view, runbook_at, runbook_of,
  can_view_doc, is_viewable, viewable_runbooks, is_viewable_through, viewable_documents,
  runbook_of_section, section_at, can_edit,
}

-- Who may edit a runbook, or what has none, may view it.
pub can_edit-can_view : (a : Actor) (r : Option Runbook) → can_edit a r ≡ true → can_view a r ≡ true
unfolding can_edit can_view is_staff is_owner uid_of
can_edit-can_view internal none h = cc
can_edit-can_view anonymous none h = cc
can_edit-can_view (user i staff superuser) none h = h
can_edit-can_view internal (some r) h = cc
can_edit-can_view anonymous (some r) h = cc
can_edit-can_view (user i staff superuser) (some r) h = ground arith

can_view-eq :
    (i : ℕ) (superuser : Bool) (r : Option Runbook)
    → can_view (user i false superuser) r ≡ is_viewable_through i r
unfolding can_view is_viewable_through is_viewable is_staff is_owner uid_of
can_view-eq i b none = refl
can_view-eq i b (some r) = ground arith

can_view-staff : (i : ℕ) (b : Bool) (r : Option Runbook) → can_view (user i true b) r ≡ true
unfolding can_view is_staff
can_view-staff i b none = refl
can_view-staff i b (some r) = refl

can_view-internal : (r : Option Runbook) → can_view internal r ≡ false
unfolding can_view is_staff uid_of
can_view-internal none = refl
can_view-internal (some r) = refl

can_view-anonymous : (r : Option Runbook) → can_view anonymous r ≡ false
unfolding can_view is_staff uid_of
can_view-anonymous none = refl
can_view-anonymous (some r) = refl

-- For every caller, the listing of runbooks is made of exactly those that the check of one runbook
-- lets the caller view.
pub viewable_runbooks-can_view :
    (a : Actor) (rs : List Runbook)
    → viewable_runbooks a rs ≡ filter_rows (λ r. can_view a (some r)) rs
unfolding viewable_runbooks is_viewable_through
viewable_runbooks-can_view internal rs =
    sym (filter_rows-false (λ r. can_view internal (some r)) rs (λ r. can_view-internal (some r)))
viewable_runbooks-can_view anonymous rs =
    sym (filter_rows-false (λ r. can_view anonymous (some r)) rs (λ r. can_view-anonymous (some r)))
viewable_runbooks-can_view (user i true b) rs =
    sym (filter_rows-true _ rs (λ r. can_view-staff i b (some r)))
viewable_runbooks-can_view (user i false b) rs =
    sym (filter_rows-eq _ (is_viewable i) rs (λ r. can_view-eq i b (some r)))

-- A document that has a section has a runbook of its own too.
abbrev pub HasRunbook : Document → Type 0
HasRunbook d = (is_none d.section || not (is_none d.runbook)) ≡ true

runbook_of-own : (s : State) (d : Document) → HasRunbook d → runbook_of s d ≡ runbook_at d.runbook s
unfolding runbook_of section_at runbook_at runbook_of_section
runbook_of-own s d h = elim (Option-cases d.runbook) [
  | inr (r, e) ↦ rw (e, runbook_of)
  | inl e ↦ elim (Option-cases d.section) [
    | inl f ↦ rw (e, f, runbook_of)
    | inr (x, f) ↦ let contrary : false ≡ true = rw (e, f) at h in cc
  ]
]

-- A listing and its check agree on a queryset if they agree on each of its rows.
filter_rows-agree {ℓ} :
    {A : Type ℓ} (p q : A → Bool) (xs : List A)
    → All (λ x. p x ≡ q x) xs
    → filter_rows p xs ≡ filter_rows q xs
unfolding filter_rows
filter_rows-agree p q [] h = refl
filter_rows-agree p q (x ∷ xs) h = ground (arith, filter_rows-agree p q xs h.1)

-- For every caller, and a queryset in which no document has a section without having a runbook, the
-- listing of documents is made of exactly those that the check of one document lets the caller
-- view.
pub viewable_documents-can_view_doc :
    (a : Actor) (s : State) (ds : List Document)
    → All HasRunbook ds
    → viewable_documents a s ds ≡ filter_rows (can_view_doc a s) ds
unfolding viewable_documents can_view_doc
viewable_documents-can_view_doc internal s ds h =
    sym (filter_rows-false _ ds (λ d. can_view-internal (runbook_of s d)))
viewable_documents-can_view_doc anonymous s ds h =
    sym (filter_rows-false _ ds (λ d. can_view-anonymous (runbook_of s d)))
viewable_documents-can_view_doc (user i true b) s ds h =
    sym (filter_rows-true _ ds (λ d. can_view-staff i b (runbook_of s d)))
viewable_documents-can_view_doc (user i false b) s ds h = filter_rows-agree _ _ ds (agree ds h)
  where
    agree :
        (xs : List Document)
        → All HasRunbook xs
        → All
            (λ d.
              is_viewable_through i (runbook_at d.runbook s)
              ≡ can_view (user i false b) (runbook_of s d))
            xs
    agree [] k = k
    agree (d ∷ xs) k = (
      sym (
          ap (can_view (user i false b)) (runbook_of-own s d k.0)
          ∙ can_view-eq i b (runbook_at d.runbook s)),
      agree xs k.1,
    )

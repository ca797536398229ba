-- ===== src/Runbook/Model.antt =====
-- apps/runbook/models.py: runbooks, sections, documents, versions and images, and the errors of
-- apps/runbook/service.py. A text is the list of its code points.
use smallstack_tabler.Prelude.{
  if◌then◌else◌, ℕ, String, Bool, true, false, Option, none, some, List, ◌==◌, ℤ, ◌≡◌, find,
  filter_rows, refl, ap,
}

abbrev pub Text : Type 0
Text = List ℕ

pub record Runbook : Type 0 where
  pub id : ℕ
  pub name : String
  pub slug : String
  pub description : String
  pub owner : Option ℕ
  pub is_public : Bool
  pub is_template : Bool
  pub default_max_versions : Option ℤ
  pub default_max_version_age_days : Option ℤ
  pub default_ttl_days : Option ℤ

pub record Section : Type 0 where
  pub id : ℕ
  pub runbook : ℕ
  pub name : String
  pub slug : String
  pub order : ℤ

pub record Document : Type 0 where
  pub id : ℕ
  pub uid : ℕ
  pub runbook : Option ℕ
  pub section : Option ℕ
  pub key : Option String
  pub title : String
  pub description : String
  pub current_version : Option ℕ
  pub version : ℕ
  pub is_generated : Bool
  pub doc_type : String
  pub source : String
  pub via : String
  pub created_by : Option ℕ
  pub is_archived : Bool
  pub archived_at : Option ℕ
  pub locked : Bool
  pub max_versions : Option ℤ
  pub max_version_age_days : Option ℤ
  pub ttl_days : Option ℤ
  pub on_expire : String
  pub updated_at : ℕ

-- `file` is what the version's file holds.
pub record DocumentVersion : Type 0 where
  pub id : ℕ
  pub document : ℕ
  pub version : ℕ
  pub file : Text
  pub title : String
  pub description : String
  pub source : String
  pub via : String
  pub created_by : Option ℕ
  pub created_at : ℕ

pub record DocumentImage : Type 0 where
  pub id : ℕ
  pub document : ℕ
  pub image : String
  pub alt : String
  pub uploaded_by : Option ℕ

pub data ChangeType : Type 0 where
  created versioned overwritten appended append_versioned : ChangeType

-- The domain events that are sent when a transaction commits: the document's pk first.
pub data Event : Type 0 where
  document_written : ℕ → ChangeType → Option ℕ → Option ℕ → Option ℕ → String → String → Event
  document_image_attached : ℕ → ℕ → Event
  document_archived : ℕ → Option ℕ → Event
  document_moved : ℕ → Option ℕ → Option ℕ → Event
  document_expired : ℕ → Event

pub record State : Type 0 where
  pub runbooks : List Runbook
  pub sections : List Section
  pub documents : List Document
  pub versions : List DocumentVersion
  pub images : List DocumentImage
  pub events : List Event

pub data Error : Type 0 where
  runbook_not_found section_not_found document_not_found document_already_exists : Error
  -- `DocumentNotFound` too, with the message that the document has no such version.
  version_not_found : ℕ → Error
  runbook_already_exists version_conflict document_locked not_authorized slug_required : Error
  -- What is not an error of the service: a failed assertion, a row that is gone, a constraint.
  assertion_error does_not_exist integrity_error : Error

-- A call that raises leaves the tables as they were: the operations are atomic, or raise before
-- they write.
pub data Result {ℓ} (A : Type ℓ) : Type ℓ where
  ok : A → Result A
  raised : Error → Result A

infixl 5 ◌>>=◌ ◌>>◌
abbrev pub ◌>>=◌ {κ ℓ} : {X : Type κ} {Y : Type ℓ} → Result X → (X → Result Y) → Result Y
raised why >>= next = raised why
ok x >>= next = next x

abbrev pub ◌>>◌ {ℓ} : {Y : Type ℓ} → Result (Unit {0}) → Result Y → Result Y
step >> rest = step >>= (λ u. rest)

-- `if not b: raise e`.
abbrev pub require : Bool → Error → Result (Unit {0})
require b why = if b then ok tt else raised why

-- `if o is None: raise e`.
abbrev pub or_raise {ℓ} : {X : Type ℓ} → Option X → Error → Result X
or_raise (some x) why = ok x
or_raise none why = raised why

-- A chain that succeeds has a first step that does.
pub >>=-eq-ok {κ ℓ} :
    {X : Type κ} {Y : Type ℓ} (step : Result X) (next : X → Result Y) {y : Y}
    → (step >>= next) ≡ ok y
    → (x : X) × (step ≡ ok x) × (next x ≡ ok y)
>>=-eq-ok (raised why) next h = cc
>>=-eq-ok (ok x) next h = (x, refl, h)

-- A step that succeeds hands its value on.
pub bind_ok {ℓ κ} :
    {A : Type ℓ} {B : Type κ} {m : Result A} (f : A → Result B) {a : A} → m ≡ ok a → (m >>= f) ≡ f a
bind_ok f h = ap (λ x. x >>= f) h

-- A step that raises ends the call.
pub bind_raised {ℓ κ} :
    {A : Type ℓ} {B : Type κ} {m : Result A} (f : A → Result B) (e : Error)
    → m ≡ raised e
    → (m >>= f) ≡ raised e
bind_raised f e h = ap (λ x. x >>= f) h

pub require-eq-ok {ℓ} :
    {B : Type ℓ} (c : Bool) (e : Error) (k : Result B) {b : B}
    → (require c e >> k) ≡ ok b
    → (c ≡ true) × (k ≡ ok b)
require-eq-ok true e k h = (refl, h)
require-eq-ok false e k h = cc

-- What a call is given by its surroundings: the clock's reading, and the keys that the database
-- and the uuid library give to a new row of a table whose keys are in the list, Django's `slugify`,
-- and the formatted text `Restored from version {n}`.
pub record Env : Type 0 where
  pub now : ℕ
  pub new_key : List ℕ → ℕ
  pub new_uid : ℕ
  pub slugify : String → String
  pub restored_from : ℕ → String

abbrev pub has_runbook_id : ℕ → Runbook → Bool
has_runbook_id i r = r.id == i

abbrev pub has_section_id : ℕ → Section → Bool
has_section_id i x = x.id == i

abbrev pub has_document_id : ℕ → Document → Bool
has_document_id i d = d.id == i

abbrev pub has_version_id : ℕ → DocumentVersion → Bool
has_version_id i v = v.id == i

-- `doc.versions`, in the order of insertion.
abbrev pub is_version_of : ℕ → DocumentVersion → Bool
is_version_of i v = v.document == i

unfoldable pub versions_of : ℕ → List DocumentVersion → List DocumentVersion
versions_of i vs = filter_rows (is_version_of i) vs

-- The column that `current_version_id` points at.
unfoldable pub head_row : Document → State → Option DocumentVersion
head_row d s = head_by d.current_version s.versions
  where
    head_by : Option ℕ → List DocumentVersion → Option DocumentVersion
    head_by none vs = none
    head_by (some v) vs = find (has_version_id v) vs

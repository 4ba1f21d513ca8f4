-- ===== src/Commands/Context.antt =====
-- Principals, scopes and the authorization check of src/ephi/application/context.py, and the errors of
-- commands (src/ephi/application/errors.py, storage.py).
use ephi.Base.{
  ℕ, Bool, false, ◌&&◌, ◌||◌, not, Option, none, some, List, [], ◌∷◌, nat_eq, ◌==◌, ℕ_eq, list_Eq,
  option_Eq, Result, err, raise_if, contains,
}
use ephi.Base.Text.{Text}

-- What commands and their reads raise; the last three are the storage's own signals, no CommandError.
pub data Raised : Type 0 where
  authorization_denied validation_failure aggregate_not_found storage_failure : Raised
  coherent_read_conflict invalid_transition : Raised
  idempotency_conflict : Text → Raised
  version_conflict : Text → ℕ → ℕ → Raised
  receipt_exists event_exists aggregate_exists : Raised

pub data RevisionIdentity : Type 0 where
  number : ℕ → RevisionIdentity
  name : Text → RevisionIdentity

unfoldable pub same_revision : RevisionIdentity → RevisionIdentity → Bool
same_revision (RevisionIdentity.number m) (RevisionIdentity.number n) = nat_eq m n
same_revision (RevisionIdentity.name s) (RevisionIdentity.name t) = s == t
same_revision _ _ = false

pub record AccessScope : Type 0 where
  pub scope_id : Text
  pub site_id : Option Text
  pub area_id : Option Text
  pub family_id : Option Text
  pub project_ids : List Text

pub record Principal : Type 0 where
  pub subject : Text
  pub capabilities : List Text
  pub scope_grants : List AccessScope
  pub auth_session_revision : RevisionIdentity
  pub security_revision : RevisionIdentity

pub record RevisionVector : Type 0 where
  pub analysis_revision : Text
  pub exposure_revision : Option Text
  pub priority_revision : Option Text
  pub workflow_version : ℕ
  pub plan_version : Option ℕ
  pub qualification_manifest_id : Text

-- `==` of revision vectors
unfoldable pub same_vector : RevisionVector → RevisionVector → Bool
same_vector a b =
    (a.analysis_revision == b.analysis_revision)
    && (a.exposure_revision == b.exposure_revision)
    && (a.priority_revision == b.priority_revision)
    && nat_eq a.workflow_version b.workflow_version
    && (a.plan_version == b.plan_version)
    && (a.qualification_manifest_id == b.qualification_manifest_id)

pub record CommandContext : Type 0 where
  pub command_id : Text
  pub principal : Principal
  pub scope : AccessScope
  pub expected_workflow_version : Option ℕ
  pub viewed_revisions : Option RevisionVector
  pub reason : Option Text

-- `Principal.has_capability`
unfoldable pub has_capability : Text → Principal → Bool
has_capability capability p = contains capability p.capabilities

-- `AccessScope.canonical_key` is json.dumps of the scope, a parameter here.
module _ (canonical_key : AccessScope → Text) where
  unfoldable pub is_granted : AccessScope → List AccessScope → Bool
  is_granted scope [] = false
  is_granted scope (g ∷ grants) =
      (canonical_key g == canonical_key scope) || is_granted scope grants

  -- `Principal.grants_scope`
  unfoldable pub grants_scope : AccessScope → Principal → Bool
  grants_scope scope p = is_granted scope p.scope_grants

  -- The condition under which `authorize` lets an operation pass.
  unfoldable pub is_permitted : Principal → Principal → AccessScope → Text → Bool
  is_permitted current presented scope capability =
      (current.subject == presented.subject)
      && same_revision current.auth_session_revision presented.auth_session_revision
      && same_revision current.security_revision presented.security_revision
      && grants_scope scope presented
      && has_capability capability presented
      && grants_scope scope current
      && has_capability capability current

  -- `CurrentAuthorizationAuthority.authorize`, given what the resolver answers, or that it raises. The
  -- capability has been checked by the caller.
  unfoldable pub authorize :
      Option Principal → Principal → AccessScope → Text → Result Raised (Unit {0})
  authorize none presented scope capability = err Raised.authorization_denied
  authorize (some current) presented scope capability =
      raise_if (not (is_permitted current presented scope capability)) Raised.authorization_denied

-- ===== src/Ledger/Artifacts.antt =====
-- packages/core-v2/src/ledger/store.ts: the artifacts of a task and those of a settlement. The
-- format of a reference and of a content address are schemas and regular expressions of libraries,
-- the parameters `parses` and `is_content_address`.
use pi_task.Common.{
  String, ◌&&◌, not, Bool, true, Option, none, some, List, [], ◌∷◌, ◌++◌, if◌then◌else◌, contains,
  keys, str_eq, returns, throws,
}
use pi_task.Ledger.Rows.{Ledger, Outcome, ArtifactReference, TaskArtifact}
use pi_task.Ledger.Tasks.{◌then◌}

abbrev pub is_artifact : String → String → TaskArtifact → Bool
is_artifact task id a = str_eq a.task_id task && str_eq a.artifact_id id

abbrev pub or_else : Option ArtifactReference → Option ArtifactReference → Option ArtifactReference
or_else none r = r
or_else (some q) r = some q

abbrev pub revision_of : Option ArtifactReference → Option String → Option String → Option String
revision_of none new old = old
revision_of (some r) new old = new

-- `INSERT INTO task_artifacts … ON CONFLICT(task_id, artifact_id) DO UPDATE`
unfoldable pub upsert_artifact : TaskArtifact → List TaskArtifact → List TaskArtifact
upsert_artifact a [] = a ∷ []
upsert_artifact a (b ∷ bs) =
    let rest = upsert_artifact a bs in
    if is_artifact a.task_id a.artifact_id b
    then record a {
      source_revision = revision_of a.reference a.source_revision b.source_revision;
      reference = or_else a.reference b.reference;
    }
      ∷ bs
    else b ∷ rest

abbrev pub names_artifact : String → Option ArtifactReference → Bool
names_artifact id none = true
names_artifact id (some r) = str_eq r.id id

abbrev pub passes : (ArtifactReference → Bool) → Option ArtifactReference → Bool
passes parses none = true
passes parses (some r) = parses r

-- What the caller of `settleChild` hands over; of an identity the source also takes the reference.
pub record ChildSettlementArtifacts : Type 0 where
  pub verification_artifact_id : Option String
  pub result_artifact_id : String
  pub receipt_artifact_id : String
  pub trace_artifact_id : String
  pub parent_receipt_artifact_id : Option String
  pub parent_trace_artifact_id : Option String
  pub failure_artifact_id : Option String
  pub verification_reference : Option ArtifactReference
  pub result_reference : Option ArtifactReference
  pub receipt_reference : Option ArtifactReference
  pub trace_reference : Option ArtifactReference
  pub parent_receipt_reference : Option ArtifactReference
  pub parent_trace_reference : Option ArtifactReference

abbrev pub media_of : Option ArtifactReference → String
media_of none = "application/json"
media_of (some r) = r.media_type

abbrev pub artifact : String → String → Option ArtifactReference → String → TaskArtifact
artifact role id r task = record {
  task_id = task;
  role = role;
  artifact_id = id;
  media_type = media_of r;
  source_revision = none;
  reference = r;
}

abbrev pub if_given : String → Option String → Option ArtifactReference → String → List TaskArtifact
if_given role none r task = []
if_given role (some id) r task = if str_eq id "" then [] else artifact role id r task ∷ []

-- `refs`
unfoldable pub settlement_artifacts : ChildSettlementArtifacts → String → String → List TaskArtifact
settlement_artifacts a parent child =
    if_given "verification" a.verification_artifact_id a.verification_reference child
    ++ artifact "result" a.result_artifact_id a.result_reference child
      ∷ artifact "receipt" a.receipt_artifact_id a.receipt_reference child
      ∷ artifact "trace" a.trace_artifact_id a.trace_reference child
      ∷ if_given "failure" a.failure_artifact_id none child
    ++ if_given "receipt" a.parent_receipt_artifact_id a.parent_receipt_reference parent
    ++ if_given "trace" a.parent_trace_artifact_id a.parent_trace_reference parent

module _ (parses : ArtifactReference → Bool) where
  unfoldable pub insert_task_artifact : TaskArtifact → Ledger → Outcome Unit
  insert_task_artifact a l =
      if not (passes parses a.reference)
      then (throws "ZodError", l)
      else if not (names_artifact a.artifact_id a.reference)
      then (throws "artifact id does not match its complete reference", l)
      else if contains a.task_id (keys l.tasks)
      then (returns tt, record l { task_artifacts = upsert_artifact a l.task_artifacts })
      else (throws "FOREIGN KEY constraint failed", l)

  unfoldable pub insert_artifacts : List TaskArtifact → Ledger → Outcome Unit
  insert_artifacts [] l = (returns tt, l)
  insert_artifacts (a ∷ rest) l =
      if names_artifact a.artifact_id a.reference
      then (insert_task_artifact a l then λ _ after. insert_artifacts rest after)
      else (throws "settlement artifact reference does not match its identity", l)

module _ (is_content_address : String → Bool) where
  abbrev pub addressed : Option String → Bool
  addressed none = true
  addressed (some id) = is_content_address id

  unfoldable pub all_addressed : ChildSettlementArtifacts → Bool
  all_addressed a =
      is_content_address a.result_artifact_id
      && is_content_address a.receipt_artifact_id
      && is_content_address a.trace_artifact_id
      && addressed a.parent_receipt_artifact_id
      && addressed a.parent_trace_artifact_id
      && addressed a.failure_artifact_id

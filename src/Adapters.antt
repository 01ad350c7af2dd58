-- ===== src/Adapters.antt =====
-- backend/app/engine/adapters.py with the evidence rows of backend/app/engine/evidence_source.py and
-- the local blob store and keys of backend/app/services/storage.py. A file's content is a text.
-- The environment: the content of a staged file, by its folder and name, the size and the SHA-256
-- digest of a content, the suffix of a name, cleaned for a key or in lower case, the text of a UUID,
-- the stream of random UUIDs, and for each key the text that the store or the evidence tables raise.
pub mod Uploads
pub mod Fetching
pub mod Results
use Prim.Native.String
use researchhub_engine.Prelude.{
  ℕ, String, ◌+◌, ◌⊎◌, inl, inr, Bool, true, false, ◌||◌, not, Option, none, some, List, [], ◌∷◌,
  ◌++◌, str_eq, if◌then◌else◌, is_none, or_else, contains, is_none,
}
use researchhub_engine.Contracts.{StepStatus, SourceOutcome, ErrorInfo, StepResult}
use researchhub_engine.Schemas.{ResearchDocStatus, ResearchErrorCode}
use researchhub_engine.Models.{Uuid, OrderData, FetchedDocument}
use researchhub_engine.DocTypes.{step_to_doc_type, doc_type_to_step, lookup}

unfoldable pub map_step_status : StepStatus → ResearchDocStatus
map_step_status StepStatus.ok = ResearchDocStatus.uploaded
map_step_status StepStatus.link = ResearchDocStatus.fetched
map_step_status StepStatus.empty = ResearchDocStatus.skipped
map_step_status StepStatus.error = ResearchDocStatus.failed

unfoldable pub error_code_for : SourceOutcome → String → ResearchErrorCode
error_code_for SourceOutcome.blocked code = ResearchErrorCode.source_unavailable
error_code_for SourceOutcome.broken code = ResearchErrorCode.source_unavailable
error_code_for SourceOutcome.retryable code = ResearchErrorCode.timeout
error_code_for _ code =
    if str_eq code "PARCEL_NOT_FOUND"
    then ResearchErrorCode.parcel_not_found
    else if str_eq code "LINK_ONLY"
    then ResearchErrorCode.source_unavailable
    else ResearchErrorCode.internal_error

-- the media type for a suffix in lower case
unfoldable pub guess_mime : String → String
guess_mime ext =
    if str_eq ext ".pdf"
    then "application/pdf"
    else if str_eq ext ".png"
    then "image/png"
    else if str_eq ext ".jpg" || str_eq ext ".jpeg"
    then "image/jpeg"
    else if str_eq ext ".txt"
    then "text/plain"
    else "application/octet-stream"

-- the rows of the evidence tables
pub record File : Type 0 where
  pub id : Uuid
  pub filename : String
  pub content_key : String
  pub mime_type : String
  pub size : ℕ
  pub sha256 : String

pub record OrderFile : Type 0 where
  pub id : Uuid
  pub order_id : Uuid
  pub file_id : Uuid

-- The blob store, the evidence tables and the number of UUIDs drawn. A later blob of one key replaces
-- an earlier one.
pub record Stores : Type 0 where
  pub blobs : List (String × String)
  pub files : List File
  pub order_files : List OrderFile
  pub drawn : ℕ

abbrev pub blob_at : String → List (String × String) → Option String
blob_at k [] = none
blob_at k ((j, v) ∷ blobs) = if str_eq k j then some v else blob_at k blobs

pub record Environment : Type 0 where
  pub disk : String → String → Option String
  pub size_of : String → ℕ
  pub digest : String → String
  pub safe_ext : String → String
  pub lower_suffix : String → String
  pub text_of : Uuid → String
  pub uuid4 : ℕ → Uuid
  pub copy_raises : String → Option String
  pub evidence_raises : String → Option String

-- A call on the stores that may raise with a text.
abbrev pub Stored : Type 0 → Type 0
Stored A = (String ⊎ A) × Stores

module _ (env : Environment) where
  unfoldable pub build_key : String → String → String → String → String ⊎ String
  build_key org_id order_id document_id filename =
      if str_eq document_id "" || str_eq document_id "None"
      then inl "build_key needs a real document id"
      else inr (
          String.◌++◌ org_id (
            String.◌++◌ "/" (
              String.◌++◌ order_id
                (String.◌++◌ "/" (String.◌++◌ document_id (env.safe_ext filename))))))

  -- the two rows of one transaction, and their ids, unless the database raises
  abbrev pub evidence_rows :
      Option String → Uuid → String → String → String → Stores → Stored (Uuid × Uuid)
  evidence_rows (some e) order_id storage_key filename content s = (inl e, s)
  evidence_rows none order_id storage_key filename content s = (
    inr (env.uuid4 s.drawn, env.uuid4 (s.drawn + 1)),
    record s {
      files =
          s.files
          ++ record {
            id = env.uuid4 s.drawn;
            filename = filename;
            content_key = storage_key;
            mime_type = guess_mime (env.lower_suffix filename);
            size = env.size_of content;
            sha256 = env.digest content;
          }
            ∷ [];
      order_files =
          s.order_files
          ++ record {
            id = env.uuid4 (s.drawn + 1);
            order_id = order_id;
            file_id = env.uuid4 s.drawn;
          }
            ∷ [];
      drawn = s.drawn + 2;
    },
  )

  unfoldable pub create_evidence : Uuid → String → String → String → Stores → Stored (Uuid × Uuid)
  unfolding guess_mime
  create_evidence order_id storage_key filename content s =
      evidence_rows (env.evidence_raises storage_key) order_id storage_key filename content s

  -- `storage.copy_in`, and what follows it
  abbrev pub copied :
      Option String
      → String
      → String
      → Stores
      → (Stores → Stored (Uuid × Uuid))
      → Stored (Uuid × Uuid)
  copied (some e) key content s next = (inl e, s)
  copied none key content s next = next (record s { blobs = (key, content) ∷ s.blobs })

  -- the `try` block from the key on: a blob that exists is not written again
  unfoldable pub store_artifact : Uuid → String → String → String → Stores → Stored (Uuid × Uuid)
  unfolding create_evidence
  store_artifact order_id key filename content s =
      if is_none (blob_at key s.blobs)
      then copied (env.copy_raises key) key content s
          (create_evidence order_id key filename content)
      else create_evidence order_id key filename content s

  abbrev pub failed_upload : FetchedDocument → String → FetchedDocument
  failed_upload doc e = record doc {
    status = ResearchDocStatus.failed;
    error_code = some ResearchErrorCode.s3_upload_failed;
    error_message = some e;
  }

  abbrev pub linked_upload :
      FetchedDocument → String → String → String → Uuid × Uuid → FetchedDocument
  linked_upload doc key filename content ids = record doc {
    status = ResearchDocStatus.uploaded;
    file_key = some key;
    file_name = some filename;
    file_size = some (env.size_of content);
    sha256 = env.digest content;
    file_id = some ids.0;
    order_file_id = some ids.1;
  }

  abbrev pub after_store :
      FetchedDocument → String → String → String → Stored (Uuid × Uuid) → FetchedDocument × Stores
  after_store doc key filename content (inl e, s) = (failed_upload doc e, s)
  after_store doc key filename content (inr ids, s) =
      (linked_upload doc key filename content ids, s)

  -- one file that is on the disk, with its key or what `build_key` raised
  unfoldable pub upload_file :
      FetchedDocument → Uuid → String → String → String ⊎ String → Stores → FetchedDocument × Stores
  unfolding store_artifact
  upload_file doc order_id filename content (inl e) s = (failed_upload doc e, s)
  upload_file doc order_id filename content (inr key) s =
      after_store doc key filename content (store_artifact order_id key filename content s)

  abbrev pub org_of : Option Uuid → String
  org_of none = "research"
  org_of (some tenant_id) = env.text_of tenant_id

  -- what is done for one name: a file that is not on the disk is passed over
  abbrev pub upload_or_next :
      FetchedDocument
      → Uuid
      → Option Uuid
      → String
      → Stores
      → FetchedDocument × Stores
      → Option String
      → FetchedDocument × Stores
  upload_or_next doc order_id tenant_id filename s next none = next
  upload_or_next doc order_id tenant_id filename s next (some content) =
      upload_file doc order_id filename content
        (build_key (org_of tenant_id) (env.text_of order_id) doc.doc_type filename) s

  -- the first of the files that is on the disk, and none of the others
  unfoldable pub upload_artifact :
      FetchedDocument
      → List String
      → Option String
      → Uuid
      → Option Uuid
      → Stores
      → FetchedDocument × Stores
  unfolding upload_file build_key
  upload_artifact doc [] docs_dir order_id tenant_id s = (doc, s)
  upload_artifact doc (filename ∷ filenames) docs_dir order_id tenant_id s =
      upload_or_next doc order_id tenant_id filename s
        (upload_artifact doc filenames docs_dir order_id tenant_id s)
        (env.disk (or_else docs_dir "") filename)

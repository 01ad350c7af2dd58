-- ===== src/Contracts.antt =====
-- backend/app/engine/contracts.py: the vocabulary of statuses, outcomes and confidences, and the
-- shapes that one document step of a run produces. Times are texts (ISO-8601) here as in the source.
use researchhub_engine.Prelude.{ℕ, String, Bool, Option, List}

pub data StepStatus : Type 0 where
  ok link empty error : StepStatus

pub data SourceOutcome : Type 0 where
  auto link_only blocked broken retryable manual_review : SourceOutcome

pub data Confidence : Type 0 where
  high medium low none : Confidence

pub data JobState : Type 0 where
  queued running completed partial failed reviewed archived : JobState

pub record ProvenanceRecord : Type 0 where
  pub source_id : String
  pub provider : String
  pub url : String
  pub retrieved_utc : String
  pub attempt : ℕ
  pub fallback_chain : List String
  pub file : Option String
  pub sha256 : Option String

pub record ErrorInfo : Type 0 where
  pub code : String
  pub message : String
  pub retryable : Bool

-- The parcel step's `land_sqft` and `land_acres` are floats, which nothing here computes with: they
-- are the texts that they print as. `payload` is the field `data`.
pub record StepResult : Type 0 where
  pub key : String
  pub label : String
  pub requirement : String
  pub condition : String
  pub description : String
  pub summary : String
  pub status : StepStatus
  pub link : String
  pub link_label : String
  pub source_url : String
  pub saved_file : Option String
  pub payload : Option String
  pub downloaded : List String
  pub situs : Option String
  pub land_sqft : Option String
  pub land_acres : Option String
  pub address_match : Option Bool
  pub source_outcome : SourceOutcome
  pub confidence : Confidence
  pub provenance : List ProvenanceRecord
  pub warnings : List String
  pub error : Option ErrorInfo

-- a link of a result, with its label
pub record MapLink : Type 0 where
  pub label : String
  pub url : String

-- the result of `run_research`; a coordinate is the text that prints it
pub record ResearchResult : Type 0 where
  pub job_number : String
  pub order : String
  pub parcel_id : String
  pub address : String
  pub matched_address : String
  pub county : String
  pub county_fips : String
  pub state : String
  pub lat : String
  pub lon : String
  pub name : String
  pub geocoder : String
  pub map_links : List MapLink
  pub folder : String
  pub steps : List StepResult
  pub warnings : List String
  pub completed_utc : Option String
  pub job_state : JobState
  pub docs_dir : Option String
  pub survey_type : String

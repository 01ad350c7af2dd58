-- ===== src/Lib.antt =====
-- A verification library of the research engine under backend/app/engine: a service that fetches the
-- public documents that a land survey of an order needs. A client creates a research job for an
-- order; the service stores the job with one row for each document type and publishes a task; a
-- worker runs the task, document by document, through the fetcher, which runs the pipeline of
-- sources and uploads what they download; meanwhile clients may cancel the job, and afterwards
-- review, archive or retry it. A periodic sweep requeues tasks that were lost.
--
-- The files, and what each models, with paths under backend/app:
--   Contracts, Schemas    the enumerations and shapes of engine/contracts.py and engine/schemas.py
--   Errors                the exceptions of engine/errors.py and the handlers of main.py
--   Models                the columns of engine/models.py, and the data classes of engine/service.py
--   Repository            engine/repository.py: the queries and writes on two tables of rows;
--                         Repository/Queries says what the writes do to the queries
--   World                 the database, the broker's queue and the supply of UUIDs, and calls that may
--                         raise, with the injected dependencies of `ResearchService`
--   DocTypes              the tables of document types of engine/adapters.py, and the validation of a
--                         request in engine/service.py; DocTypes/Order: `sorted` on texts
--   Service               engine/service.py: counters and terminal status, cancel, review, archive;
--                         Service/Creation: create_job and retry_job
--   Worker                engine/worker.py: research_job; Worker/Callback: _fire_callback;
--                         Worker/Reaper: reaper_research_jobs
--   Reference             RESIDENTIAL_DOCS of data/reference.py
--   Sources               engine/orchestration/sources.py: the adapter interface, classify_exception;
--                         its children Legal, Clerk, Property, Federal and Registry the adapters;
--                         Sources/Context: PropertyContext of engine/orchestration/context.py;
--                         Sources/Services: what the adapters call
--   Steps                 engine/orchestration/steps.py
--   Geocoding             services/geocode.py
--   Resolution            resolve_property_context of engine/orchestration/context.py, with
--                         services/clerk.py and the folder of engine/orchestration/folders.py
--   Parcels               services/parcel.py: Situs and Matching read site addresses, Choice picks the
--                         parcel at a point, Identifiers looks one up by its identifier
--   Pipeline              build_steps with the registered adapters; Pipeline/Runner: run_research of
--                         engine/orchestration/runner.py
--   Adapters              the uploads of engine/adapters.py with engine/evidence_source.py and the keys
--                         of services/storage.py; Adapters/Fetching: the document fetcher
--   Mappers               engine/mappers.py with the response schemas
--   Orders                engine/order_source.py
--   Access                engine/dependencies.py
--   Limiter               core/limiter.py
--   Router                engine/router.py: the endpoints
--   Consistency           the writes that the calls of engine/service.py and the tasks of
--                         engine/worker.py come down to, and the states that they lead to
-- The other children hold proofs, Prelude the shared helpers, and Tests the concrete runs.
--
-- A Python method on the session becomes a function of the database, or of the world where it may
-- raise or draws a UUID; the state comes back after a raise too. Interleavings are explicit: what
-- other sessions commit while `create_job` checks and inserts is the argument `race`, and what they
-- commit between two looks of the worker is the argument `others`. The disk, the HTTP clients, the
-- broker, the clock, the decoding of tokens and Python's functions on texts and regular expressions
-- are arguments. Every loop is structural recursion on its list or on the number of attempts left, so
-- no fuel is needed.
--
-- The fetcher calls the pipeline with the steps to include; the pipeline looks up the property, which
-- gives a context, and runs the adapters of the steps on it one after the other, each of which may
-- change the context. What a service of the adapters answers or raises is an argument, and so are the
-- two look-ups of a parcel; Parcels says what services/parcel.py answers to these.
--
-- Identifiers and times are natural numbers, JSON lists are lists, floats are the texts that print
-- them. Not modelled: what the services send to other hosts, the scraping of clerks' sites with a
-- browser and the layout of the reports that are saved, which are input and output; the tables of
-- counties and states; configuration and migrations.
pub mod Prelude
pub mod Contracts
pub mod Schemas
pub mod Errors
pub mod Models
pub mod Repository
pub mod World
pub mod DocTypes
pub mod Service
pub mod Worker
pub mod Reference
pub mod Sources
pub mod Steps
pub mod Adapters
pub mod Mappers
pub mod Orders
pub mod Geocoding
pub mod Resolution
pub mod Parcels
pub mod Pipeline
pub mod Access
pub mod Limiter
pub mod Router
pub mod Consistency
pub mod Tests

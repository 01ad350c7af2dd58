-- ===== src/Pipeline/Unconfirmed.antt =====
-- What the pipeline of backend/app/engine/orchestration does for a parcel that the context does not
-- confirm.
use researchhub_engine.Prelude.{
  ◌≡◌, refl, ap, ◌∙◌, ◌⊎◌, inl, inr, true, false, ◌&&◌, Option, none, some, arith, is_none,
  contains,
}
use researchhub_engine.Sources.{ManifestEntry}
use researchhub_engine.Sources.Context.{no_appraisal, Context, ClerkDocs, no_docs, log}
use researchhub_engine.Sources.Services.{Python, Services}
use researchhub_engine.Sources.Legal.{is_full}
use researchhub_engine.Sources.Clerk.{
  with_appraisal, clerk_documents, scrape_documents, scrape_or_cached, scraped,
}
use researchhub_engine.Resolution.Phases.{unconfirmed_warning}

-- The context does not confirm its parcel, has no identifier of it and a warning that says so, the empty
-- appraiser's record that it was made with, and no document of the clerk.
pub record IsUnconfirmed (ctx : Context) : Type 0 where
  pub unconfirmed : ctx.parcel_ok ≡ false
  pub no_id : ctx.parcel_id ≡ ""
  pub warned : contains unconfirmed_warning ctx.warnings ≡ true
  pub no_record : ctx.appr ≡ some no_appraisal
  pub no_document : (ctx.clerk_docs ≡ none) ⊎ (ctx.clerk_docs ≡ some no_docs)

pub log-IsUnconfirmed :
    (e : ManifestEntry) (ctx : Context) → IsUnconfirmed ctx → IsUnconfirmed (log e ctx)
unfolding log
log-IsUnconfirmed e ctx u = record {
  unconfirmed = u.unconfirmed;
  no_id = u.no_id;
  warned = u.warned;
  no_record = u.no_record;
  no_document = u.no_document;
}

module _ (python : Python) (services : Services) where
  with_appraisal_lem :
      (ctx : Context) → IsUnconfirmed ctx → with_appraisal python services ctx ≡ ctx
  unfolding with_appraisal
  with_appraisal_lem ctx u =
      let off : (services.appraiser_available ctx.county_fips
            && is_full ctx.parcel_id
            && is_none ctx.appr)
          ≡ false =
        rw u.no_record (ground arith) in
      rw off refl

  clerk_documents_lem :
      (ctx : Context) → IsUnconfirmed ctx → clerk_documents python services ctx ≡ no_docs
  unfolding clerk_documents
  clerk_documents_lem ctx u = rw u.unconfirmed refl

  scraped_lem :
      (ctx : Context)
      → IsUnconfirmed ctx
      → scraped python services ctx ≡ (no_docs, record ctx { clerk_docs = some no_docs })
  scraped_lem ctx u = rw (clerk_documents_lem ctx u) refl

  from_cache :
      (ctx : Context) (o : Option ClerkDocs)
      → IsUnconfirmed ctx
      → (o ≡ none) ⊎ (o ≡ some no_docs)
      → (ctx' : Context) × (scrape_or_cached python services ctx o ≡ (no_docs, ctx'))
        × IsUnconfirmed ctx'
  from_cache ctx none u h = (
    record ctx { clerk_docs = some no_docs },
    ap (scraped python services) (with_appraisal_lem ctx u) ∙ scraped_lem ctx u,
    record {
      unconfirmed = u.unconfirmed;
      no_id = u.no_id;
      warned = u.warned;
      no_record = u.no_record;
      no_document = inr refl;
    },
  )
  from_cache ctx (some docs) u (inl h) = cc
  from_cache ctx (some docs) u (inr h) = let same : docs ≡ no_docs = cc in (ctx, rw same refl, u)

  -- Nothing is scraped.
  pub scrape_documents_lem :
      (ctx : Context)
      → IsUnconfirmed ctx
      → (ctx' : Context) × (scrape_documents python services ctx ≡ (no_docs, ctx'))
        × IsUnconfirmed ctx'
  unfolding scrape_documents
  scrape_documents_lem ctx u = from_cache ctx ctx.clerk_docs u u.no_document

-- ===== src/Adapters/Uploads.antt =====
-- What `_upload_artifact` of backend/app/engine/adapters.py leaves in the blob store, and in the
-- document.
use researchhub_engine.Prelude.{
  String, ◌≡◌, refl, ap, ◌∙◌, ◌⊎◌, inl, inr, true, false, Option, none, some, List, [], ◌∷◌, ◌++◌,
  arith, if◌then◌else◌, Bool-cases, is_none, or_else, All, str_eq, eq_iff,
}
use researchhub_engine.Schemas.{ResearchDocStatus, ResearchErrorCode}
use researchhub_engine.Models.{Uuid, FetchedDocument}
use researchhub_engine.Adapters.{
  Stores, Stored, Environment, blob_at, evidence_rows, create_evidence, copied, store_artifact,
  after_store, upload_file, upload_artifact, upload_or_next, build_key, org_of,
}

-- Every blob is still there, with its content.
abbrev pub KeepsBlobs : Stores → Stores → Type 0
KeepsBlobs s s' = (k v : String) → blob_at k s.blobs ≡ some v → blob_at k s'.blobs ≡ some v

module _ (env : Environment) where
  evidence_rows-blobs :
      (o : Option String) (order_id : Uuid) (key filename content : String) (s : Stores)
      → (evidence_rows env o order_id key filename content s).1.blobs ≡ s.blobs
  evidence_rows-blobs none order_id key filename content s = refl
  evidence_rows-blobs (some e) order_id key filename content s = refl

  store_artifact-KeepsBlobs :
      (order_id : Uuid) (key filename content : String) (s : Stores)
      → KeepsBlobs s (store_artifact env order_id key filename content s).1
  unfolding store_artifact create_evidence
  store_artifact-KeepsBlobs order_id key filename content s k v h =
      go (blob_at key s.blobs) refl (env.copy_raises key)
    where
      absurd_lookup : blob_at k s.blobs ≡ none → blob_at k ((key, content) ∷ s.blobs) ≡ some v
      absurd_lookup e = cc

      go :
          (b : Option String)
          → blob_at key s.blobs ≡ b
          → (o : Option String)
          → blob_at k
              (if is_none b
                then copied env o key content s (create_evidence env order_id key filename content)
                else create_evidence env order_id key filename content s).1.blobs
            ≡ some v
      go (some w) hb o =
          rw (evidence_rows-blobs (env.evidence_raises key) order_id key filename content s) h
      go none hb (some e) = h
      go none hb none =
          rw
            (evidence_rows-blobs (env.evidence_raises key) order_id key filename content
              (record s { blobs = (key, content) ∷ s.blobs }))
            (other (Bool-cases (str_eq k key)))
        where
          other :
              ((str_eq k key ≡ true) ⊎ (str_eq k key ≡ false))
              → blob_at k ((key, content) ∷ s.blobs) ≡ some v
          other (inl same) =
              absurd_lookup (ap (λ j. blob_at j s.blobs) ((eq_iff k key).0 same) ∙ hb)
          other (inr apart) = rw apart h

  -- The store or the evidence tables raise for a key.
  abbrev pub StoreRaises : String → Stores → String → Type 0
  StoreRaises key s e =
      ((blob_at key s.blobs ≡ none) × (env.copy_raises key ≡ some e))
      ⊎ (env.evidence_raises key ≡ some e)

  -- A call raises only what the store or the tables do; where it returns, neither does, and there is a blob
  -- of the key: the content, where there was none.
  abbrev pub IsStored : String → String → Stores → Stored (Uuid × Uuid) → Type 0
  IsStored key content s r =
      ((e : String) × (r.0 ≡ inl e) × StoreRaises key s e)
      ⊎ ((ids : Uuid × Uuid) × (blob : String) × (r.0 ≡ inr ids)
          × (blob_at key r.1.blobs ≡ some blob)
          × (blob_at key s.blobs ≡ none → (blob ≡ content) × (env.copy_raises key ≡ none))
          × (env.evidence_raises key ≡ none))

  evidence_rows-IsStored :
      (o : Option String) (order_id : Uuid) (key filename content blob : String) (s t : Stores)
      → env.evidence_raises key ≡ o
      → blob_at key t.blobs ≡ some blob
      → (blob_at key s.blobs ≡ none → (blob ≡ content) × (env.copy_raises key ≡ none))
      → IsStored key content s (evidence_rows env o order_id key filename content t)
  evidence_rows-IsStored (some e) order_id key filename content blob s t raises h fresh =
      inl (e, refl, inr raises)
  evidence_rows-IsStored none order_id key filename content blob s t raises h fresh =
      inr (_, blob, refl, h, fresh, raises)

  store_artifact-IsStored :
      (order_id : Uuid) (key filename content : String) (s : Stores)
      → IsStored key content s (store_artifact env order_id key filename content s)
  unfolding store_artifact create_evidence
  store_artifact-IsStored order_id key filename content s =
      go (blob_at key s.blobs) refl (env.copy_raises key) refl
    where
      go :
          (b : Option String)
          → blob_at key s.blobs ≡ b
          → (o : Option String) → env.copy_raises key ≡ o
          → IsStored key content s (
              if is_none b
              then copied env o key content s (create_evidence env order_id key filename content)
              else create_evidence env order_id key filename content s)
      go (some w) hb o ho =
          evidence_rows-IsStored (env.evidence_raises key) order_id key filename content w s s refl
            hb (λ absent. cc)
      go none hb (some e) ho = inl (e, refl, inl (hb, ho))
      go none hb none ho =
          evidence_rows-IsStored (env.evidence_raises key) order_id key filename content content s
            (record s { blobs = (key, content) ∷ s.blobs }) refl (ground (arith, eq_iff key key))
            (λ _. (refl, ho))

  module _ (order_id : Uuid) (tenant_id : Option Uuid) where
    -- the key of a file, or what the making of it raises
    abbrev pub key_of : FetchedDocument → String → String ⊎ String
    key_of doc filename =
        build_key env (org_of env tenant_id) (env.text_of order_id) doc.doc_type filename

    -- What the upload of a file leaves: the document failed with the text that was raised, or linked to
    -- the file, where nothing was raised.
    abbrev pub IsFileEnd :
        FetchedDocument → String → String → Stores → FetchedDocument × Stores → Type 0
    IsFileEnd doc filename content s r =
        ((e : String) × ((key_of doc filename ≡ inl e)
            ⊎ ((key : String) × (key_of doc filename ≡ inr key) × StoreRaises key s e))
          × (r.0 ≡ record doc {
            status = ResearchDocStatus.failed;
            error_code = some ResearchErrorCode.s3_upload_failed;
            error_message = some e;
          }))
        ⊎ ((key : String) × (ids : Uuid × Uuid) × (blob : String) × (key_of doc filename ≡ inr key)
            × (r.0 ≡ record doc {
              status = ResearchDocStatus.uploaded;
              file_key = some key;
              file_name = some filename;
              file_size = some (env.size_of content);
              sha256 = env.digest content;
              file_id = some ids.0;
              order_file_id = some ids.1;
            })
            × (blob_at key r.1.blobs ≡ some blob)
            × (blob_at key s.blobs ≡ none → (blob ≡ content) × (env.copy_raises key ≡ none))
            × (env.evidence_raises key ≡ none))

    -- What an upload leaves: everything as it was, where none of the files is on the disk, and otherwise
    -- what the upload of the first file that is leaves.
    abbrev pub IsUploadEnd :
        List String → Option String → FetchedDocument → Stores → FetchedDocument × Stores → Type 0
    IsUploadEnd filenames docs_dir doc s r =
        (All (λ f. env.disk (or_else docs_dir "") f ≡ none) filenames × (r ≡ (doc, s)))
        ⊎ ((before : List String) × (filename : String) × (after : List String) × (content : String)
            × (filenames ≡ before ++ filename ∷ after)
            × All (λ f. env.disk (or_else docs_dir "") f ≡ none) before
            × (env.disk (or_else docs_dir "") filename ≡ some content)
            × IsFileEnd doc filename content s r)

    upload_file-end :
        (doc : FetchedDocument) (filename content : String) (k : String ⊎ String) (s : Stores)
        → key_of doc filename ≡ k
        → KeepsBlobs s (upload_file env doc order_id filename content k s).1
          × IsFileEnd doc filename content s (upload_file env doc order_id filename content k s)
    unfolding upload_file
    upload_file-end doc filename content (inl e) s made = (λ k v h. h, inl (e, inl made, refl))
    upload_file-end doc filename content (inr key) s made =
        go (store_artifact env order_id key filename content s)
          (store_artifact-KeepsBlobs order_id key filename content s)
          (store_artifact-IsStored order_id key filename content s)
      where
        go :
            (r : Stored (Uuid × Uuid))
            → KeepsBlobs s r.1
            → IsStored key content s r
            → KeepsBlobs s (after_store env doc key filename content r).1
              × IsFileEnd doc filename content s (after_store env doc key filename content r)
        go (inl e, t) keeps (inl (e', same, raised)) =
            let again : e' ≡ e = cc in (keeps, inl (e, inr (key, made, rw (← again) raised), refl))
        go (inl e, t) keeps (inr (ids, blob, same, _, _, _)) = cc
        go (inr ids, t) keeps (inl (e, same, _)) = cc
        go (inr ids, t) keeps (inr (_, blob, _, found, fresh, quiet)) =
            (keeps, inr (key, ids, blob, made, refl, found, fresh, quiet))

    -- An upload never overwrites or drops a blob. It leaves everything as it was where no file of the step
    -- is on the disk. Otherwise it is that of the first file of the step that is: the document is failed
    -- with `s3_upload_failed` and a text that the making of the key, the copying to a new key or the
    -- evidence tables raise; or none of these raises, and it is uploaded, linked to this file by name, size
    -- and digest, and to a key that has a blob, which is the file's content if the key was new.
    pub upload_artifact-end :
        (doc : FetchedDocument) (filenames : List String) (docs_dir : Option String) (s : Stores)
        → KeepsBlobs s (upload_artifact env doc filenames docs_dir order_id tenant_id s).1
          × IsUploadEnd filenames docs_dir doc s
              (upload_artifact env doc filenames docs_dir order_id tenant_id s)
    unfolding upload_artifact
    upload_artifact-end doc [] docs_dir s = (λ k v h. h, inl (tt, refl))
    upload_artifact-end doc (f ∷ fs) docs_dir s =
        go (env.disk (or_else docs_dir "") f) refl _ (upload_artifact-end doc fs docs_dir s)
      where
        go :
            (o : Option String)
            → env.disk (or_else docs_dir "") f ≡ o
            → (next : FetchedDocument × Stores)
            → (KeepsBlobs s next.1 × IsUploadEnd fs docs_dir doc s next)
            → KeepsBlobs s (upload_or_next env doc order_id tenant_id f s next o).1
              × IsUploadEnd
                  (f ∷ fs)
                  docs_dir
                  doc
                  s
                  (upload_or_next env doc order_id tenant_id f s next o)
        go (some content) h next _ =
            let (keeps, end) = upload_file-end doc f content (key_of doc f) s refl in
            (keeps, inr ([], f, fs, content, refl, tt, h, end))
        go none h next (keeps, inl (absent, same)) = (keeps, inl ((h, absent), same))
        go none h next (keeps, inr (before, g, after, content, split, absent, there, end)) = (
          keeps,
          inr (f ∷ before, g, after, content, ap (λ l. f ∷ l) split, (h, absent), there, end),
        )

-- ===== src/Polygon/Import/Uploads.antt =====
-- What the second half of importProblem does with the bucket (services/problem-import.service.ts).
use mathlib.Core.Path.{subst}
use Prim.Native.String.{◌++◌ as ◌<>◌}
use text.Mathlib.TextLemmas.{cons-append}
use Prim.Native.Char.{code}
use judge_self.Common.{
  ℕ, String, ◌≡◌, refl, sym, ap, ◌∙◌, inl, inr, Bool, true, false, some, List, [], ◌∷◌, ◌==◌, All,
  arith, eq_iff, Bool-cases, if◌then◌else◌,
}
use judge_self.Common.Assoc.{Assoc, lookup, assign, lookup-assign}
use judge_self.Polygon.Xml.{Extracted, extracted, thrown, ParsedProblemXml}
use judge_self.Polygon.Problems.{Row, ProblemRecord, stored_row, create_problem_record}
use judge_self.Polygon.Problems.RoundTrip.{create_problem_record-appends}
use judge_self.Polygon.Disk.{World, throw, attempt, read_file, change_disk, write_file}
use judge_self.Polygon.Statement.{Image}
use judge_self.Polygon.Archive.{archive_items, zip_problem_files}
use judge_self.Polygon.Import.{
  Outside, zip_key, image_key, put_object, upload_to_s3, upload_images, inserted, insert_problem,
}
use judge_self.Polygon.Import.Returned.{
  Returns, extracted-inj, thrown-ne-extracted, bind-returned, found-returned, lookup-assign_self,
}

module _ (o : Outside) where
  -- The key has an object in the bucket.
  abbrev pub HasObject : String → World → Type 0
  HasObject key w = (content : String) × (lookup key w.bucket ≡ some content)

  assign-keeps :
      (key other content : String) (b : Assoc String)
      → (c : String) × (lookup other b ≡ some c)
      → (c : String) × (lookup other (assign key content b) ≡ some c)
  assign-keeps key other content b (c, h) = elim (Bool-cases (key == other)) [
    | inl e ↦ (content, lookup-assign key other content b ∙ (rw e refl))
    | inr e ↦ (c, lookup-assign key other content b ∙ (rw e h))
  ]

  -- What an upload does when it returns.
  pub upload-returned :
      (path key : String) (w w' : World)
      → Returns (upload_to_s3 o path key) w tt w'
      → (content : String) × (lookup path w.disk.files ≡ some content)
        × (record w { bucket = assign key content w.bucket } ≡ w')
  unfolding upload_to_s3 read_file
  upload-returned path key w w' h =
      let (v, content, r, g) = bind-returned (read_file path) _ w w' tt h in
      let (same, is_content) = found-returned "ENOENT" (lookup path w.disk.files) w v content r in
      (
        content,
        is_content,
        go content (o.accepts key) (
            subst
              (λ x.
                Returns (if o.accepts key then put_object o key content else throw "PutObject") x tt
                  w')
              (sym same) g),
      )
    where
      go :
          (content : String) (b : Bool)
          → Returns (if b then put_object o key content else throw "PutObject") w tt w'
          → record w { bucket = assign key content w.bucket } ≡ w'
      go content true g = ap (λ p. p.0) g
      go content false g = absurd (thrown-ne-extracted (ap (λ p. p.1) g))

  -- The objects that were there are still there.
  abbrev pub Grows : World → World → Type 0
  Grows w w' = (key : String) → HasObject key w → HasObject key w'

  pub upload-Grows :
      (path key : String) (w w' : World)
      → Returns (upload_to_s3 o path key) w tt w'
      → Grows w w' × HasObject key w'
  upload-Grows path key w w' h =
      let (content, _, same) = upload-returned path key w w' h in
      subst (λ x. Grows w x × HasObject key x) same
        (
          (λ other has. assign-keeps key other content w.bucket has),
          (content, lookup-assign_self key content w.bucket),
        )

  pub upload_images-Grows :
      (problem_id : String) (images : List Image) (w w' : World)
      → Returns (upload_images o problem_id images) w tt w'
      → Grows w w' × All (λ img. HasObject (image_key o problem_id img) w') images
  unfolding upload_images
  upload_images-Grows problem_id [] w w' h =
      ((λ key has. subst (HasObject key) (ap (λ p. p.0) h) has), tt)
  upload_images-Grows problem_id (img ∷ images) w w' h =
      let key = image_key o problem_id img in
      let (v, _, r, g) = bind-returned (upload_to_s3 o img.img_src key) _ w w' tt h in
      let (first, here) = upload-Grows img.img_src key w v r in
      let (rest, all) = upload_images-Grows problem_id images v w' g in
      ((λ other has. rest other (first other has)), (rest key here, all))

  first_code : String → ℕ
  first_code String.[] = 0
  first_code (String.◌∷◌ c s) = code c

  keys_differ :
      (problem_id : String) (img : Image)
      → (image_key o problem_id img == zip_key o problem_id) ≡ false
  unfolding first_code
  keys_differ problem_id img =
      elim (Bool-cases (image_key o problem_id img == zip_key o problem_id)) [
        | inr e ↦ e
        | inl e ↦
            let same =
              ap first_code ((eq_iff (image_key o problem_id img) (zip_key o problem_id)).0 e) in
            let i : first_code (image_key o problem_id img) ≡ 105 =
              ap first_code (cons-append "i" "mages/" (problem_id <> ("/" <> img.name))) in
            let p : first_code (zip_key o problem_id) ≡ 112 =
              ap first_code (cons-append "p" "roblems/" (problem_id <> ".zip")) in
            absurd (omega (arith, same, i, p))
      ]

  -- No image replaces the archive.
  pub upload_images-zip :
      (problem_id : String) (images : List Image) (w w' : World)
      → Returns (upload_images o problem_id images) w tt w'
      → lookup (zip_key o problem_id) w'.bucket ≡ lookup (zip_key o problem_id) w.bucket
  unfolding upload_images
  upload_images-zip problem_id [] w w' h =
      ap (λ p. lookup (zip_key o problem_id) p.0.bucket) (sym h)
  upload_images-zip problem_id (img ∷ images) w w' h =
      let key = image_key o problem_id img in
      let zip = zip_key o problem_id in
      let (v, _, r, g) = bind-returned (upload_to_s3 o img.img_src key) _ w w' tt h in
      let (content, _, same) = upload-returned img.img_src key w v r in
      upload_images-zip problem_id images v w' g
      ∙ ap (λ x. lookup zip x.bucket) (sym same)
      ∙ lookup-assign key zip content w.bucket
      ∙ (rw (keys_differ problem_id img) refl)

  -- The archive is packed, and written where the upload reads it.
  pub zip-returned :
      (work_dir : String) (parsed : ParsedProblemXml) (w w' : World)
      → Returns (zip_problem_files o.join o.pack work_dir parsed) w tt w'
      → (archive : String) × (o.pack w.disk (archive_items o.join work_dir parsed)
          ≡ extracted archive)
        × (lookup (o.join work_dir "problem.zip") w'.disk.files ≡ some archive)
  unfolding zip_problem_files change_disk
  zip-returned work_dir parsed w w' h =
      let path = o.join work_dir "problem.zip" in
      let (v, archive, r, g) =
        bind-returned (λ x. attempt (o.pack x.disk (archive_items o.join work_dir parsed)) x) _ w w'
          tt h in
      let same : record v { disk = write_file path archive v.disk } ≡ w' = ap (λ p. p.0) g in
      (
        archive,
        ap (λ p. p.1) r,
        subst (λ x. lookup path x.disk.files ≡ some archive) same
            (lookup-assign_self path archive v.disk.files),
      )

  pub insert-returned :
      (r : ProblemRecord) (w w' : World) (row : Row)
      → Returns (insert_problem o r) w row w'
      → (row ≡ stored_row o.now r) × (w'.bucket ≡ w.bucket)
  insert-returned r w w' row h = go (create_problem_record o.has_contest o.now r w.problems) refl h
    where
      go :
          (x : Extracted (Row × List Row))
          → create_problem_record o.has_contest o.now r w.problems ≡ x
          → inserted o w x ≡ (w', extracted row)
          → (row ≡ stored_row o.now r) × (w'.bucket ≡ w.bucket)
      go (thrown m) e g = absurd (thrown-ne-extracted (ap (λ p. p.1) g))
      go (extracted (new, table)) e g =
          let (stored, _) =
            create_problem_record-appends o.has_contest o.now r w.problems table new e in
          (sym (extracted-inj (ap (λ p. p.1) g)) ∙ sym stored, ap (λ p. p.0.bucket) (sym g))

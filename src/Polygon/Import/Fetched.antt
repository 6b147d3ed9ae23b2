-- ===== src/Polygon/Import/Fetched.antt =====
-- What fetchProblemZip (services/polygon/polygon.service.ts) leaves on the disk when it returns.
use mathlib.Core.Path.{subst}
use judge_self.Common.{
  String, ◌≡◌, ◌⊎◌, refl, sym, ap, inl, inr, Bool, true, false, Option, none, some, ◌&&◌, not,
  if◌then◌else◌,
}
use judge_self.Polygon.Disk.{Disk, World, Task, give, change_disk, put_disk, on_disk, write_file}
use judge_self.Polygon.Xml.{extracted}
use judge_self.Polygon.Service.{
  Polygon, Answer, refused, no_body, body, generate_test_cases, unzip_file, receive, fetch_refused,
  fetch_problem_zip,
}
use judge_self.Polygon.Import.Returned.{Returns, thrown-ne-extracted, bind-returned}

put_disk-returned :
    (m : String) (o : Option Disk) (w v : World)
    → put_disk m o w ≡ (v, extracted tt)
    → (d : Disk) × (o ≡ some d) × (record w { disk = d } ≡ v)
put_disk-returned m none w v h = absurd (thrown-ne-extracted (ap (λ p. p.1) h))
put_disk-returned m (some d) w v h = (d, refl, ap (λ p. p.0) h)

module _ (join : String → String → String) (polygon : Polygon) where
  -- The package was written to the directory and unzipped there.
  abbrev pub IsUnzipped : String → String → World → Disk → Type 0
  IsUnzipped work_dir content w d =
      polygon.unzip (join work_dir "package.zip") work_dir
        (write_file (join work_dir "package.zip") content w.disk)
      ≡ some d

  -- The directory has the package for Linux of that address, or, if that was refused, the other one
  -- with the tests that its scripts generate.
  abbrev pub IsFetched : String → String → World → World → Type 0
  IsFetched problem_url work_dir w v =
      (content : String) × (d : Disk) × IsUnzipped work_dir content w d
      × (((polygon.post problem_url "linux" ≡ body content) × (record w { disk = d } ≡ v))
          ⊎ ((status : String) × (polygon.post problem_url "linux" ≡ refused status)
              × (polygon.post problem_url "" ≡ body content)
              × Returns (generate_test_cases join polygon work_dir) (record w { disk = d }) tt v))

  abbrev generated : String → Bool → Task Unit
  generated work_dir b = if b then generate_test_cases join polygon work_dir else give tt

  receive-returned :
      (work_dir content : String) (is_linux : Bool) (otherwise : String → Task Unit) (w v : World)
      → Returns (receive join polygon work_dir is_linux (body content) otherwise) w tt v
      → (d : Disk) × IsUnzipped work_dir content w d
        × Returns
            (generated work_dir (not is_linux && polygon.allow_generate_tests))
            (record w { disk = d })
            tt
            v
  unfolding change_disk on_disk
  receive-returned work_dir content is_linux otherwise w v h =
      let path = join work_dir "package.zip" in
      let (u, _, r, g) = bind-returned (change_disk (write_file path content)) _ w v tt h in
      let (t, _, r', g') = bind-returned (unzip_file join polygon path work_dir) _ u v tt g in
      let written : record w { disk = write_file path content w.disk } ≡ u = ap (λ p. p.0) r in
      let (d, unzipped, same) = put_disk-returned _ (polygon.unzip path work_dir u.disk) u t r' in
      (
        d,
        subst (λ x. polygon.unzip path work_dir x.disk ≡ some d) (sym written) unzipped,
        subst
            (λ x.
              Returns (generated work_dir (not is_linux && polygon.allow_generate_tests)) x tt v)
            (sym (subst (λ x. record x { disk = d } ≡ t) (sym written) same)) g',
      )

  refused-IsFetched :
      (problem_url work_dir status : String) (allow : Bool) (w v : World)
      → polygon.allow_generate_tests ≡ allow
      → polygon.post problem_url "linux" ≡ refused status
      → Returns
          (if allow
            then receive join polygon work_dir false
                (polygon.post problem_url "")
                (fetch_refused join polygon)
            else fetch_refused join polygon status)
          w
          tt
          v
      → IsFetched problem_url work_dir w v
  refused-IsFetched problem_url work_dir status false w v a e h =
      absurd (thrown-ne-extracted (ap (λ p. p.1) h))
  refused-IsFetched problem_url work_dir status true w v a e h =
      go (polygon.post problem_url "") refl h
    where
      go :
          (answer : Answer)
          → polygon.post problem_url "" ≡ answer
          → Returns (receive join polygon work_dir false answer (fetch_refused join polygon)) w tt v
          → IsFetched problem_url work_dir w v
      go (refused s) q h = absurd (thrown-ne-extracted (ap (λ p. p.1) h))
      go no_body q h = absurd (thrown-ne-extracted (ap (λ p. p.1) h))
      go (body content) q h =
          let (d, unzipped, g) =
            receive-returned work_dir content false (fetch_refused join polygon) w v h in
          (
            content,
            d,
            unzipped,
            inr (
              status,
              e,
              q,
              subst (λ b. Returns (generated work_dir b) (record w { disk = d }) tt v) a g,
            ),
          )

  pub fetch_problem_zip-IsFetched :
      (problem_url work_dir : String) (w v : World)
      → Returns (fetch_problem_zip join polygon problem_url work_dir true) w tt v
      → IsFetched problem_url work_dir w v
  unfolding fetch_problem_zip
  fetch_problem_zip-IsFetched problem_url work_dir w v h =
      go (polygon.post problem_url "linux") refl h
    where
      otherwise : String → Task Unit
      otherwise status =
          if polygon.allow_generate_tests
          then receive join polygon work_dir false (polygon.post problem_url "")
              (fetch_refused join polygon)
          else fetch_refused join polygon status

      go :
          (answer : Answer)
          → polygon.post problem_url "linux" ≡ answer
          → Returns (receive join polygon work_dir true answer otherwise) w tt v
          → IsFetched problem_url work_dir w v
      go (refused s) q h = refused-IsFetched problem_url work_dir s _ w v refl q h
      go no_body q h = absurd (thrown-ne-extracted (ap (λ p. p.1) h))
      go (body content) q h =
          let (d, unzipped, g) = receive-returned work_dir content true otherwise w v h in
          (content, d, unzipped, inl (q, ap (λ p. p.0) g))

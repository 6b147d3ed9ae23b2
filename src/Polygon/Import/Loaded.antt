-- ===== src/Polygon/Import/Loaded.antt =====
-- What the first half of importProblem has read when it returns (services/problem-import.service.ts).
use mathlib.Core.Path.{subst}
use judge_self.Common.{ℕ, String, ◌≡◌, sym, ap, ◌∙◌, Bool, true, false, some, List, if◌then◌else◌}
use judge_self.Common.Int.{pos}
use judge_self.Common.Assoc.{lookup}
use judge_self.Polygon.Xml.{PolygonProblem, ParsedProblemXml, extracted, parse_problem_xml}
use judge_self.Polygon.TestCases.{Entry, validate_test_cases}
use judge_self.Polygon.TestCases.Complete.{IsComplete, validate_test_cases-IsComplete}
use judge_self.Polygon.Disk.{
  World, give, throw, attempt, read_file, read_dir, change_disk, set_listing,
}
use judge_self.Polygon.Service.{fetch_problem_zip}
use judge_self.Polygon.Statement.{StatementData, html_dir, statement_of, extract_problem_statement}
use judge_self.Polygon.Import.{Outside, make_dir, validate, load_package}
use judge_self.Polygon.Import.Returned.{
  Returns, extracted-inj, thrown-ne-extracted, bind-returned, found-returned, lookup-assign_self,
}
use judge_self.Polygon.Import.Fetched.{IsFetched, fetch_problem_zip-IsFetched}

module _ (o : Outside) where
  -- The directory with the tests holds just the files of that many tests.
  abbrev pub HasTestFiles : String → ParsedProblemXml → World → Type 0
  HasTestFiles work_dir parsed w =
      (n : ℕ) × (parsed.tests.test_count ≡ some (pos n))
      × (dir : List Entry) × (lookup (o.join work_dir parsed.tests.test_set_name) w.disk.listings
          ≡ some dir)
      × IsComplete n dir

  abbrev pub with_listing : String → List Entry → World → World
  with_listing dir entries w = record w { disk = set_listing dir entries w.disk }

  -- The description and the statement are those that the fetched package has, the tests are those that it
  -- describes, and the listing of their directory is all that changed since it was fetched.
  pub record IsLoaded (problem_url work_dir : String) (w : World) (parsed : ParsedProblemXml)
      (statements : StatementData) (w' : World) : Type 0 where
    pub fetched : World
    pub is_fetched : IsFetched o.join o.polygon problem_url work_dir w fetched
    pub xml : String
    pub is_xml : lookup (o.join work_dir "problem.xml") fetched.disk.files ≡ some xml
    pub problem : PolygonProblem
    pub is_problem : o.parse_xml xml ≡ extracted problem
    pub is_parsed : parse_problem_xml o.basename problem ≡ extracted parsed
    pub html : String
    pub is_html :
        lookup
          (o.join (o.join work_dir "statements/.html/english") "problem.html")
          fetched.disk.files
        ≡ some html
    pub are_statements : statements ≡ statement_of o.join o.cheerio work_dir html fetched.disk
    pub tests : List Entry
    pub is_left : with_listing (o.join work_dir parsed.tests.test_set_name) tests fetched ≡ w'
    pub has_tests : HasTestFiles work_dir parsed w'

  validate-returned :
      (work_dir : String) (parsed : ParsedProblemXml) (w w' : World)
      → Returns (validate o work_dir parsed.tests.test_set_name parsed.tests.test_count) w tt w'
      → (fixed : List Entry) × (with_listing (o.join work_dir parsed.tests.test_set_name) fixed w
          ≡ w')
        × HasTestFiles work_dir parsed w'
  unfolding validate change_disk read_dir
  validate-returned work_dir parsed w w' h =
      let set = parsed.tests.test_set_name in
      let count = parsed.tests.test_count in
      let tests_dir = o.join work_dir set in
      let (v, entries, q, r) = bind-returned (read_dir tests_dir) _ w w' tt h in
      let (u, fixed, a, c) =
        bind-returned (attempt (validate_test_cases o.join work_dir set count entries)) _ v w' tt
          r in
      let (n, is_count, complete) =
        validate_test_cases-IsComplete o.join work_dir set count entries fixed (ap (λ p. p.1) a) in
      let listed = found-returned "ENOENT" (lookup tests_dir w.disk.listings) w v entries q in
      let to_u : w ≡ u = listed.0 ∙ ap (λ p. p.0) a in
      let same : with_listing tests_dir fixed u ≡ w' = ap (λ p. p.0) c in
      (
        fixed,
        ap (with_listing tests_dir fixed) to_u ∙ same,
        (
          n,
          is_count,
          fixed,
          subst (λ x. lookup tests_dir x.disk.listings ≡ some fixed) same
              (lookup-assign_self tests_dir fixed u.disk.listings),
          complete,
        ),
      )

  make_dir-returned :
      (b : Bool) (w v : World) → Returns (if b then throw "mkdir" else give tt) w tt v → w ≡ v
  make_dir-returned true w v h = absurd (thrown-ne-extracted (ap (λ p. p.1) h))
  make_dir-returned false w v h = ap (λ p. p.0) h

  statement-returned :
      (work_dir : String) (w v : World) (statements : StatementData)
      → Returns (extract_problem_statement o.join o.cheerio work_dir) w statements v
      → (html : String) × (lookup
            (o.join (html_dir o.join o.cheerio work_dir) "problem.html")
            w.disk.files
          ≡ some html)
        × (statements ≡ statement_of o.join o.cheerio work_dir html w.disk)
        × (w ≡ v)
  unfolding extract_problem_statement read_file
  statement-returned work_dir w v statements h =
      let path = o.join (html_dir o.join o.cheerio work_dir) "problem.html" in
      let (u, html, r, g) = bind-returned (read_file path) _ w v statements h in
      let (same, is_html) = found-returned "ENOENT" (lookup path w.disk.files) w u html r in
      (
        html,
        is_html,
        sym (extracted-inj (ap (λ p. p.1) g))
            ∙ ap (λ x. statement_of o.join o.cheerio work_dir html x.disk) (sym same),
        same ∙ ap (λ p. p.0) g,
      )

  IsLoaded-of_calls :
      (problem_url work_dir : String) (w v fetched c d e : World)
      → w ≡ v
      → Returns (fetch_problem_zip o.join o.polygon problem_url work_dir true) v tt fetched
      → (xml : String) → lookup (o.join work_dir "problem.xml") fetched.disk.files ≡ some xml
      → (problem : PolygonProblem) → o.parse_xml xml ≡ extracted problem
      → (parsed : ParsedProblemXml) → parse_problem_xml o.basename problem ≡ extracted parsed
      → fetched ≡ c
      → (statements : StatementData)
      → Returns (extract_problem_statement o.join o.cheerio work_dir) c statements d
      → Returns (validate o work_dir parsed.tests.test_set_name parsed.tests.test_count) d tt e
      → IsLoaded problem_url work_dir w parsed statements e
  IsLoaded-of_calls problem_url work_dir w v fetched c d e to_v r1 xml is_xml problem is_problem
        parsed is_parsed to_c statements r5 r6 =
      let (html, is_html, are, to_d) = statement-returned work_dir c d statements r5 in
      let (tests, left, has) = validate-returned work_dir parsed d e r6 in
      record {
        fetched = fetched;
        is_fetched =
            subst (λ x. IsFetched o.join o.polygon problem_url work_dir x fetched) (sym to_v)
              (fetch_problem_zip-IsFetched o.join o.polygon problem_url work_dir v fetched r1);
        xml = xml;
        is_xml = is_xml;
        problem = problem;
        is_problem = is_problem;
        is_parsed = is_parsed;
        html = html;
        is_html =
            ap
              (λ x.
                lookup (o.join (o.join work_dir "statements/.html/english") "problem.html")
                  x.disk.files)
              to_c
            ∙ is_html;
        are_statements =
            are ∙ ap (λ x. statement_of o.join o.cheerio work_dir html x.disk) (sym to_c);
        tests = tests;
        is_left =
            ap (with_listing (o.join work_dir parsed.tests.test_set_name) tests) (to_c ∙ to_d)
            ∙ left;
        has_tests = has;
      }

  pub load_package-IsLoaded :
      (problem_url work_dir : String) (w w' : World) (parsed : ParsedProblemXml)
      (statements : StatementData)
      → Returns (load_package o problem_url work_dir) w (parsed, statements) w'
      → IsLoaded problem_url work_dir w parsed statements w'
  unfolding load_package read_file
  load_package-IsLoaded problem_url work_dir w w' parsed statements h =
      let result : ParsedProblemXml × StatementData = (parsed, statements) in
      let xml_path = o.join work_dir "problem.xml" in
      let (v, _, r, g) = bind-returned (make_dir o) _ w w' result h in
      let (fetched, _, r1, g1) =
        bind-returned (fetch_problem_zip o.join o.polygon problem_url work_dir true) _ v w' result
          g in
      let (a, xml, r2, g2) = bind-returned (read_file xml_path) _ fetched w' result g1 in
      let (to_a, is_xml) =
        found-returned "ENOENT" (lookup xml_path fetched.disk.files) fetched a xml r2 in
      let (b, problem, r3, g3) = bind-returned (attempt (o.parse_xml xml)) _ a w' result g2 in
      let (c, parsed', r4, g4) =
        bind-returned (attempt (parse_problem_xml o.basename problem)) _ b w' result g3 in
      let to_c : fetched ≡ c = to_a ∙ ap (λ p. p.0) r3 ∙ ap (λ p. p.0) r4 in
      let (d, statements', r5, g5) =
        bind-returned (extract_problem_statement o.join o.cheerio work_dir) _ c w' result g4 in
      let (e, _, r6, g6) =
        bind-returned (validate o work_dir parsed'.tests.test_set_name parsed'.tests.test_count) _ d
          w' result g5 in
      let loaded : (parsed', statements') ≡ result = extracted-inj (ap (λ p. p.1) g6) in
      subst (λ l. IsLoaded problem_url work_dir w l.0 l.1 w') loaded
        (subst (IsLoaded problem_url work_dir w parsed' statements') (ap (λ p. p.0) g6) (
          IsLoaded-of_calls problem_url work_dir w v fetched c d e
            (make_dir-returned o.mkdir_fails w v r) r1 xml is_xml problem (ap (λ p. p.1) r3) parsed'
            (ap (λ p. p.1) r4) to_c statements' r5 r6))

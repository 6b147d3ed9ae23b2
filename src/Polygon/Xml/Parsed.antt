-- ===== src/Polygon/Xml/Parsed.antt =====
-- Which descriptions of a problem are accepted, and what is then known of it
-- (services/polygon/polygon-xml.service.ts).
use judge_self.Common.{
  String, ◌≡◌, ◌≢◌, ◌⊎◌, ◌↔◌, refl, sym, ap, inl, inr, Bool, true, false, Option, none, some, List,
  [], ◌∷◌, ◌==◌, arith, eq_iff, if◌then◌else◌,
}
use mathlib.Core.Path.{subst}
use judge_self.Common.Int.{ℤ, pos, leb_ℤ, ◌<ℤ◌}
use judge_self.Common.Number.{parse_int}
use judge_self.Polygon.Xml.{
  ProblemName, FileReference, Testset, Asset, PolygonProblem, Extracted, extracted, thrown,
  and_then, extract_name, extract_tests_info, extract_checker_info, extract_interactor_info,
  parse_problem_xml, is_at_most_0, checker_type, checker_source, interactor_type, interactor_source,
}

abbrev pub Returns : {A : Type 0} → Extracted A → Type 0
Returns {A} m = (a : A) × (m ≡ extracted a)

-- A text that `parseInt` does not read, or one that it reads as a positive number.
abbrev pub IsCount : Option ℤ → Type 0
IsCount n = (n ≡ none) ⊎ ((k : ℤ) × (n ≡ some k) × (pos 0 <ℤ k))

abbrev pub HasOneTestset : List Testset → Type 0
HasOneTestset ts = (t : Testset) × (ts ≡ t ∷ []) × IsCount (parse_int t.test_count)

abbrev pub IsSource : FileReference → Type 0
IsSource f = (f.path ≢ "") × ((type : String) × (f.type ≡ some type) × (type ≢ ""))

-- A program whose source file and language are named.
abbrev pub HasSource : Asset → Type 0
HasSource a = (f : FileReference) × (a.source ≡ some f) × IsSource f

-- A program that is given, with its source.
abbrev pub HasProgram : Option Asset → Type 0
HasProgram o = (a : Asset) × (o ≡ some a) × HasSource a

abbrev pub IsImportable : PolygonProblem → Type 0
IsImportable p =
    (p.names ≢ [])
    × HasOneTestset p.testsets
    × HasProgram p.checker
    × ((p.interactor ≡ none) ⊎ HasProgram p.interactor)

and_then-Returns :
    {A B : Type 0} (m : Extracted A) (k : A → Extracted B)
    → Returns (and_then m k)
    → (a : A) × (m ≡ extracted a) × Returns (k a)
and_then-Returns (extracted a) k h = (a, refl, h)
and_then-Returns (thrown s) k (b, h) = cc

Returns-and_then :
    {A B : Type 0} (m : Extracted A) (k : A → Extracted B)
    → Returns m
    → ((a : A) → Returns (k a))
    → Returns (and_then m k)
Returns-and_then (extracted a) k m_returns h = h a
Returns-and_then (thrown s) k (a, e) h = cc

extract_name-Returns : (names : List ProblemName) → Returns (extract_name names) ↔ (names ≢ [])
unfolding extract_name
extract_name-Returns [] = ((λ (a, h). cc), (λ h. absurd (h refl)))
extract_name-Returns (n ∷ ns) = ((λ h e. cc), (λ h. (_, refl)))

is_at_most_0-IsCount : (n : Option ℤ) → (is_at_most_0 n ≡ false) ↔ IsCount n
is_at_most_0-IsCount none = ((λ h. inl refl), (λ h. refl))
is_at_most_0-IsCount (some k) = ((λ h. inr (k, refl, ground arith)), (λ h. positive h))
  where
    positive : IsCount (some k) → leb_ℤ k (pos 0) ≡ false
    positive (inl h) = cc
    positive (inr (j, e, h)) = ground arith

guarded-Returns :
    {A : Type 0} (b : Bool) (message : String) (m : Extracted A)
    → Returns (if b then thrown message else m) ↔ ((b ≡ false) × Returns m)
guarded-Returns true message m = ((λ (a, h). cc), (λ (h, _). cc))
guarded-Returns false message m = ((λ h. (refl, h)), (λ (_, h). h))

is_empty_iff : (s : String) → ((s == "") ≡ false) ↔ (s ≢ "")
is_empty_iff s = ((λ h e. ground (arith, eq_iff s "")), (λ h. ground (arith, eq_iff s "")))

extract_tests_info-Returns :
    (ts : List Testset) → Returns (extract_tests_info ts) ↔ HasOneTestset ts
unfolding extract_tests_info
extract_tests_info-Returns [] = ((λ (a, h). cc), (λ (t, h, _). cc))
extract_tests_info-Returns (t ∷ u ∷ rest) = ((λ (a, h). cc), (λ (t', h, _). cc))
extract_tests_info-Returns (t ∷ []) = (
  (λ h.
      (t, refl, (is_at_most_0-IsCount (parse_int t.test_count)).0 ((guarded-Returns _ _ _).0 h).0)),
  (λ (t', e, c). (guarded-Returns _ _ _).1 (
    (is_at_most_0-IsCount (parse_int t.test_count)).1 (subst IsCount (sym (ap count_of e)) c),
    (_, refl),
  )),
)
  where
    count_of : List Testset → Option ℤ
    count_of [] = none
    count_of (u ∷ us) = parse_int u.test_count

checker_type-Returns :
    (path : String) (o : Option String)
    → Returns (checker_type path o) ↔ ((type : String) × (o ≡ some type) × (type ≢ ""))
checker_type-Returns path none = ((λ (a, h). cc), (λ (t, h, _). cc))
checker_type-Returns path (some type) = (
  (λ h. (type, refl, (is_empty_iff type).0 ((guarded-Returns _ _ _).0 h).0)),
  (λ (t, e, h). (guarded-Returns _ _ _).1 ((is_empty_iff type).1 (λ z. h (cc)), (_, refl))),
)

interactor_type-Returns :
    (path : String) (o : Option String)
    → Returns (interactor_type path o) ↔ ((type : String) × (o ≡ some type) × (type ≢ ""))
interactor_type-Returns path none = ((λ (a, h). cc), (λ (t, h, _). cc))
interactor_type-Returns path (some type) = (
  (λ h. (type, refl, (is_empty_iff type).0 ((guarded-Returns _ _ _).0 h).0)),
  (λ (t, e, h). (guarded-Returns _ _ _).1 ((is_empty_iff type).1 (λ z. h (cc)), (_, refl))),
)

abbrev IsSourceOf : Option FileReference → Type 0
IsSourceOf o = (f : FileReference) × (o ≡ some f) × IsSource f

abbrev or_this : {A : Type 0} → A → Option A → A
or_this a none = a
or_this a (some b) = b

same-IsSource : (f : FileReference) → IsSourceOf (some f) → IsSource f
same-IsSource f (g, e, h) = subst IsSource (sym (ap (or_this f) e)) h

checker_source-Returns : (o : Option FileReference) → Returns (checker_source o) ↔ IsSourceOf o
checker_source-Returns none = ((λ (a, h). cc), (λ (t, h, _). cc))
checker_source-Returns (some f) = (forth, (λ s. back (same-IsSource f s)))
  where
    forth : Returns (checker_source (some f)) → IsSourceOf (some f)
    forth h =
        let (named, typed) = (guarded-Returns _ _ _).0 h in
        (f, refl, ((is_empty_iff f.path).0 named, (checker_type-Returns f.path f.type).0 typed))

    back : IsSource f → Returns (checker_source (some f))
    back (h, k) =
        (guarded-Returns _ _ _).1
          ((is_empty_iff f.path).1 h, (checker_type-Returns f.path f.type).1 k)

interactor_source-Returns :
    (o : Option FileReference) → Returns (interactor_source o) ↔ IsSourceOf o
interactor_source-Returns none = ((λ (a, h). cc), (λ (t, h, _). cc))
interactor_source-Returns (some f) = (forth, (λ s. back (same-IsSource f s)))
  where
    forth : Returns (interactor_source (some f)) → IsSourceOf (some f)
    forth h =
        let (named, typed) = (guarded-Returns _ _ _).0 h in
        (f, refl, ((is_empty_iff f.path).0 named, (interactor_type-Returns f.path f.type).0 typed))

    back : IsSource f → Returns (interactor_source (some f))
    back (h, k) =
        (guarded-Returns _ _ _).1
          ((is_empty_iff f.path).1 h, (interactor_type-Returns f.path f.type).1 k)

same-HasSource : (a : Asset) → HasProgram (some a) → HasSource a
same-HasSource a (b, e, h) = subst HasSource (sym (ap (or_this a) e)) h

extract_checker_info-Returns : (o : Option Asset) → Returns (extract_checker_info o) ↔ HasProgram o
unfolding extract_checker_info
extract_checker_info-Returns none = ((λ (a, h). cc), (λ (t, h, _). cc))
extract_checker_info-Returns (some a) = (
  (λ h. (a, refl, (checker_source-Returns a.source).0 h)),
  (λ h. (checker_source-Returns a.source).1 (same-HasSource a h)),
)

extract_interactor_info-Returns :
    (o : Option Asset) → Returns (extract_interactor_info o) ↔ ((o ≡ none) ⊎ HasProgram o)
unfolding extract_interactor_info
extract_interactor_info-Returns none = ((λ h. inl refl), (λ h. (_, refl)))
extract_interactor_info-Returns (some a) = (
  (λ h. inr (a, refl, (interactor_source-Returns a.source).0 h)),
  (λ h. elim h [
    | inl e ↦ cc
    | inr program ↦ (interactor_source-Returns a.source).1 (same-HasSource a program)
  ]),
)

module _ (basename : String → String) (p : PolygonProblem) where
  -- A parsed problem.xml is accepted, and no error is thrown, exactly if it names the problem, has one
  -- testset whose count `parseInt` reads as a positive number or does not read at all, has a checker
  -- with a source file and a language, and has these of the interactor too if there is one.
  pub parse_problem_xml-Returns : Returns (parse_problem_xml basename p) ↔ IsImportable p
  unfolding parse_problem_xml
  parse_problem_xml-Returns = (forth, back)
    where
      forth : Returns (parse_problem_xml basename p) → IsImportable p
      forth h =
          let (n, named, h1) = and_then-Returns _ _ h in
          let (t, tested, h2) = and_then-Returns _ _ h1 in
          let (c, checked, h3) = and_then-Returns _ _ h2 in
          let (i, interactive, h4) = and_then-Returns _ _ h3 in
          (
            (extract_name-Returns p.names).0 (n, named),
            (extract_tests_info-Returns p.testsets).0 (t, tested),
            (extract_checker_info-Returns p.checker).0 (c, checked),
            (extract_interactor_info-Returns p.interactor).0 (i, interactive),
          )

      back : IsImportable p → Returns (parse_problem_xml basename p)
      back (named, tested, checked, interactive) =
          Returns-and_then _ _ ((extract_name-Returns p.names).1 named) (λ n.
            Returns-and_then _ _ ((extract_tests_info-Returns p.testsets).1 tested) (λ t.
              Returns-and_then _ _ ((extract_checker_info-Returns p.checker).1 checked) (λ c.
                Returns-and_then _ _ ((extract_interactor_info-Returns p.interactor).1 interactive)
                  (λ i. (_, refl)))))

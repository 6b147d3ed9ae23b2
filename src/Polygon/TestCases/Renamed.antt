-- ===== src/Polygon/TestCases/Renamed.antt =====
-- What fixTestCases does to a directory whose names differ without their leading zeros
-- (services/polygon/polygon-tests.service.ts).
use mathlib.Core.Path.{subst}
use judge_self.Common.{
  String, ◌≡◌, refl, sym, ap, ◌∙◌, inl, inr, Bool, true, false, not, ◌&&◌, List, [], ◌∷◌, ◌++◌,
  ◌==◌, All, any, keep, map, arith, eq_iff, eq_refl, Bool-cases,
}
use judge_self.Common.Distinct.{occurs, IsDistinct}
use judge_self.Polygon.Xml.{extracted}
use judge_self.Polygon.TestCases.{
  Kind, file_kind, directory_kind, Entry, is_file, is_directory, has_name, strip_zeros, set_name,
  rename, fix_all, fix_test_cases,
}

abbrev pub stripped : Entry → Entry
stripped e = record e { name = strip_zeros e.name }

abbrev pub keys : List Entry → List String
keys entries = map (λ e. strip_zeros e.name) entries

strip_zeros_idem : (s : String) → strip_zeros (strip_zeros s) ≡ strip_zeros s
unfolding strip_zeros
strip_zeros_idem String.[] = refl
strip_zeros_idem (String.◌∷◌ c s) = elim (Bool-cases (String.◌∷◌ c String.[] == "0")) [
  | inl e ↦ rw e (strip_zeros_idem s)
  | inr e ↦ rw e (rw e refl)
]

not-eq : (s t : String) → (s ≡ t → ⊥) → (s == t) ≡ false
not-eq s t h = elim (Bool-cases (s == t)) [ inl e ↦ absurd (h ((eq_iff s t).0 e)) | inr e ↦ e ]

true-ne-false : {b : Bool} → b ≡ true → b ≡ false → ⊥
true-ne-false h k = cc

-- An entry with another key has neither the name of this one nor the one that it gets.
other_names :
    (e x : Entry)
    → (strip_zeros x.name == strip_zeros e.name) ≡ false
    → ((x.name == e.name) ≡ false) × ((x.name == strip_zeros e.name) ≡ false)
other_names e x h = (
  not-eq x.name e.name (λ p.
      true-ne-false ((eq_iff (strip_zeros x.name) (strip_zeros e.name)).1 (ap strip_zeros p)) h),
  not-eq x.name (strip_zeros e.name) (λ p.
      true-ne-false
        ((eq_iff (strip_zeros x.name) (strip_zeros e.name)).1
          (ap strip_zeros p ∙ strip_zeros_idem e.name))
        h),
)

abbrev moved : Entry → List Entry → List Entry
moved e xs =
    map (set_name e.name (strip_zeros e.name))
      (keep (λ x. not (has_name (strip_zeros e.name) x)) xs)

moved-fresh :
    (e : Entry) (r : List Entry) → occurs (strip_zeros e.name) (keys r) ≡ false → moved e r ≡ r
moved-fresh e [] h = refl
moved-fresh e (x ∷ r) h =
    let (old, new) = other_names e x (ground arith) in
    rw (new, old) (ap (◌∷◌ x) (moved-fresh e r (ground arith)))

abbrev IsNew : Entry → Type 0
IsNew e = (e.name == strip_zeros e.name) ≡ false

moved_one :
    (e : Entry) (l r : List Entry)
    → IsNew e
    → occurs (strip_zeros e.name) (keys l) ≡ false
    → occurs (strip_zeros e.name) (keys r) ≡ false
    → moved e (l ++ e ∷ r) ≡ l ++ stripped e ∷ r
moved_one e [] r n hl hr = rw (n, eq_refl e.name) (ap (◌∷◌ (stripped e)) (moved-fresh e r hr))
moved_one e (x ∷ l) r n hl hr =
    let (old, new) = other_names e x (ground arith) in
    rw (new, old) (ap (◌∷◌ x) (moved_one e l r n (ground arith) hr))

no_directory_kind : (k : Kind) → file_kind k ≡ true → directory_kind k ≡ false
no_directory_kind Kind.file h = refl
no_directory_kind Kind.directory h = cc
no_directory_kind Kind.other h = refl

no_directory :
    (name : String) (xs : List Entry)
    → All (λ e. is_file e ≡ true) xs
    → any (λ e. has_name name e && is_directory e) xs ≡ false
no_directory name [] h = refl
no_directory name (x ∷ xs) (h, hs) =
    rw (no_directory_kind x.kind h) (ground (arith, no_directory name xs hs))

has_entry : (e : Entry) (l r : List Entry) → any (has_name e.name) (l ++ e ∷ r) ≡ true
has_entry e [] r = rw (eq_refl e.name) refl
has_entry e (x ∷ l) r = ground (arith, has_entry e l r)

All-append : {A : Type 0} (P : A → Type 0) (xs ys : List A) → All P xs → All P ys → All P (xs ++ ys)
All-append P [] ys h k = k
All-append P (x ∷ xs) ys (h, hs) k = (h, All-append P xs ys hs k)

-- The step of the loop for an entry whose name changes.
rename_step :
    (e : Entry) (l r : List Entry)
    → IsNew e
    → (strip_zeros e.name == "") ≡ false
    → All (λ x. is_file x ≡ true) (l ++ e ∷ r)
    → occurs (strip_zeros e.name) (keys l) ≡ false
    → occurs (strip_zeros e.name) (keys r) ≡ false
    → rename e.name (strip_zeros e.name) (l ++ e ∷ r) ≡ extracted (l ++ stripped e ∷ r)
unfolding rename
rename_step e l r n nonempty files hl hr =
    rw (nonempty, no_directory (strip_zeros e.name) (l ++ e ∷ r) files, has_entry e l r)
      (ap extracted (moved_one e l r n hl hr))

-- A text of a list of different ones occurs neither before nor after itself.
around :
    (x : String) (l r : List String)
    → IsDistinct (l ++ x ∷ r)
    → (occurs x l ≡ false) × (occurs x r ≡ false)
around x [] r (h, d) = (refl, h)
around x (y ∷ l) r (h, d) =
    let (before, after) = around x l r d in
    (ground (arith, not_first y l h, eq_iff x y, eq_iff y x), after)
  where
    not_first : (y : String) (l : List String) → occurs y (l ++ x ∷ r) ≡ false → (x == y) ≡ false
    not_first y [] h = ground arith
    not_first y (z ∷ l) h = ground (arith, not_first y l)

keys-append : (xs ys : List Entry) → keys (xs ++ ys) ≡ keys xs ++ keys ys
keys-append [] ys = refl
keys-append (x ∷ xs) ys = ap (◌∷◌ (strip_zeros x.name)) (keys-append xs ys)

snoc-append : {A : Type 0} (xs ys : List A) (x : A) → (xs ++ x ∷ []) ++ ys ≡ xs ++ x ∷ ys
snoc-append [] ys x = refl
snoc-append (z ∷ xs) ys x = ap (◌∷◌ z) (snoc-append xs ys x)

-- The loop, when the entries before these are done.
fix_all-stripped :
    (es done : List Entry)
    → All (λ x. is_file x ≡ true) done
    → All (λ x. is_file x ≡ true) es
    → All (λ x. (strip_zeros x.name == "") ≡ false) es
    → IsDistinct (keys done ++ keys es)
    → fix_all es (done ++ es) ≡ extracted (done ++ map stripped es)
unfolding fix_all
fix_all-stripped [] done fd fe ne d = refl
fix_all-stripped (e ∷ es) done fd (f, fe) (n, ne) d =
    let key = strip_zeros e.name in
    let snoc = snoc-append done es (stripped e) in
    let before : keys (done ++ stripped e ∷ []) ++ keys es ≡ keys done ++ key ∷ keys es =
      ap (λ ks. ks ++ keys es) (keys-append done (stripped e ∷ []))
      ∙ snoc-append (keys done) (keys es) (strip_zeros key)
      ∙ ap (λ k. keys done ++ k ∷ keys es) (strip_zeros_idem e.name) in
    let files = All-append (λ x. is_file x ≡ true) done (stripped e ∷ []) fd (f, tt) in
    let later =
      fix_all-stripped es (done ++ stripped e ∷ []) files fe ne (subst IsDistinct (sym before) d) in
    let rest : fix_all es (done ++ stripped e ∷ es)
        ≡ extracted (done ++ stripped e ∷ map stripped es) =
      ap (fix_all es) (sym snoc)
      ∙ later
      ∙ ap extracted (snoc-append done (map stripped es) (stripped e)) in
    let (l, r) = around key (keys done) (keys es) d in
    elim (Bool-cases (key == e.name)) [
      | inl s ↦
          let same : stripped e ≡ e = ap (λ k. record e { name = k }) ((eq_iff key e.name).0 s) in
          rw (f, s) (ap (λ x. fix_all es (done ++ x ∷ es)) (sym same) ∙ rest)
      | inr s ↦
          let new : IsNew e =
            not-eq e.name key (λ p. true-ne-false ((eq_iff key e.name).1 (sym p)) s) in
          let all = All-append (λ x. is_file x ≡ true) done (e ∷ es) fd (f, fe) in
          rw (f, s, rename_step e done es new n all l r) rest
    ]

-- Every name loses its leading zeros.
pub fix_test_cases-stripped :
    (es : List Entry)
    → All (λ x. is_file x ≡ true) es
    → All (λ x. (strip_zeros x.name == "") ≡ false) es
    → IsDistinct (keys es)
    → fix_test_cases es ≡ extracted (map stripped es)
fix_test_cases-stripped es f n d = fix_all-stripped es [] tt f n d

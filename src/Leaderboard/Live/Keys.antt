-- ===== src/Leaderboard/Live/Keys.antt =====
-- The two Redis keys of a contest, of leaderboard-service/src/services/leaderboard.service.ts.
use Prim.Native.String.{◌++◌, [], ◌∷◌}
use Prim.Native.Char.{Char, code}
use text.Mathlib.TextLemmas.{nil-append, cons-append, append_cancel_left, append_cancel_right}
use judge_self.Common.{String, ◌≡◌, ◌≢◌, ap, sym, ◌∙◌, arith, ◌==◌, eq_iff, Bool-cases, inl, inr}

pub get_contest_leaderboard_key : String → String
get_contest_leaderboard_key contest_id = "contest:" ++ (contest_id ++ ":leaderboard")

pub get_contest_metadata_key : String → String
get_contest_metadata_key contest_id = "contest:" ++ (contest_id ++ ":metadata")

-- The last character, if there is one.
last_or : Char → String → Char
last_or d [] = d
last_or d (c ∷ s) = last_or c s

last_or-append : (d : Char) (s t : String) → last_or d (s ++ t) ≡ last_or (last_or d s) t
unfolding last_or
last_or-append d [] t = rw nil-append
last_or-append d (c ∷ s) t = rw cons-append (last_or-append c s t)

pub leaderboard_key-injective :
    (c d : String) → get_contest_leaderboard_key c ≡ get_contest_leaderboard_key d → c ≡ d
unfolding get_contest_leaderboard_key
leaderboard_key-injective c d e =
    append_cancel_right c d ":leaderboard"
      (append_cancel_left "contest:" (c ++ ":leaderboard") (d ++ ":leaderboard") e)

pub metadata_key-injective :
    (c d : String) → get_contest_metadata_key c ≡ get_contest_metadata_key d → c ≡ d
unfolding get_contest_metadata_key
metadata_key-injective c d e =
    append_cancel_right c d ":metadata"
      (append_cancel_left "contest:" (c ++ ":metadata") (d ++ ":metadata") e)

-- The keys of the two kinds differ in their last characters.
pub leaderboard_key-ne-metadata_key :
    (c d : String) → get_contest_leaderboard_key c ≢ get_contest_metadata_key d
unfolding get_contest_leaderboard_key get_contest_metadata_key last_or
leaderboard_key-ne-metadata_key c d e =
    let p : c ++ ":leaderboard" ≡ d ++ ":metadata" =
      append_cancel_left "contest:" (c ++ ":leaderboard") (d ++ ":metadata") e in
    let x : Char = "x" in
    let q : last_or x (c ++ ":leaderboard") ≡ last_or x (d ++ ":metadata") = ap (last_or x) p in
    let r = sym (last_or-append x c ":leaderboard") ∙ q ∙ last_or-append x d ":metadata" in
    absurd (omega (arith, ap code r))

eq-of_iff : (a b c d : String) → (a ≡ b → c ≡ d) → (c ≡ d → a ≡ b) → (a == b) ≡ (c == d)
eq-of_iff a b c d f g = elim (Bool-cases (a == b)) [
  | inl e ↦ e ∙ sym ((eq_iff c d).1 (f ((eq_iff a b).0 e)))
  | inr e ↦ elim (Bool-cases (c == d)) [
    | inl h ↦ (eq_iff a b).1 (g ((eq_iff c d).0 h)) ∙ sym h
    | inr h ↦ e ∙ sym h
  ]
]

pub leaderboard_key_eq :
    (c d : String) → (get_contest_leaderboard_key c == get_contest_leaderboard_key d) ≡ (c == d)
leaderboard_key_eq c d =
    eq-of_iff (get_contest_leaderboard_key c) (get_contest_leaderboard_key d) c d
      (leaderboard_key-injective c d) (ap get_contest_leaderboard_key)

pub metadata_key_eq :
    (c d : String) → (get_contest_metadata_key c == get_contest_metadata_key d) ≡ (c == d)
metadata_key_eq c d =
    eq-of_iff (get_contest_metadata_key c) (get_contest_metadata_key d) c d
      (metadata_key-injective c d) (ap get_contest_metadata_key)

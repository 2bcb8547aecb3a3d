-- ===== src/Quotas/Examples.antt =====
-- Runs of the counters with one tool.

use text.Mathlib.TextEquality.{eq_iff}
use open_pass.Base.Text.Lines.{cons_not_empty}
use open_pass.Base.{
  ℕ, zero, suc, ◌-◌, Bool, All, subst, sym, ap, inl, inr, Bool-cases, arith, String, true, false,
  ◌==◌, ◌≡◌, refl, Option, none, some, [], ◌∷◌, if◌then◌else◌,
}
use open_pass.Base.Assoc.{Assoc, lookup, insert}
use open_pass.Base.Clock.{ℤ, pos, negsuc}
use open_pass.Base.Text.{text_length}
use open_pass.Quotas.{Json, QuotaCounter, Faults, wrote, succ, read_text, increment}
use open_pass.Quotas.Laws.{JsonLaws, count_in, increment_counts}

-- A format for maps with the one tool "get" and a count that is not negative: a mark for each call.
unfoldable marks : ℕ → String
marks zero = "."
marks (suc n) = String.◌∷◌ "i" (marks n)

abbrev marshal_one : Assoc ℤ → Option String
marshal_one ((tool, pos n) ∷ []) = if tool == "get" then some (marks n) else none
marshal_one _ = none

abbrev sample_json : Json
sample_json = record {
  marshal = marshal_one;
  unmarshal = λ text. some (some (("get", pos (text_length text - 1)) ∷ []));
}

marks_not_empty : (n : ℕ) → (marks n == "") ≡ false
unfolding marks
marks_not_empty zero = refl
marks_not_empty (suc n) = cons_not_empty "i" (marks n)

text_length-marks : (n : ℕ) → text_length (marks n) ≡ suc n
unfolding marks text_length
text_length-marks zero = refl
text_length-marks (suc n) = ap suc (text_length-marks n)

one_tool :
    (tool : String) (n : ℕ) (text : String)
    → marshal_one ((tool, pos n) ∷ []) ≡ some text
    → (tool ≡ "get") × (marks n ≡ text)
one_tool tool n text h = elim (Bool-cases (tool == "get")) [
  | inl e ↦ (ground (arith, e, eq_iff tool "get"), ground (arith, rw e at h))
  | inr e ↦ absurd (ground (arith, rw e at h))
]

sample_reads_back :
    (m : Assoc ℤ) (text : String)
    → marshal_one m ≡ some text
    → ((text == "") ≡ false)
      × ((n : Assoc ℤ) × (some (some (("get", pos (text_length text - 1)) ∷ [])) ≡ some (some n))
          × ((tool : String) → lookup tool n ≡ lookup tool m))
sample_reads_back ((tool, pos n) ∷ []) text h =
    let (e, q) = one_tool tool n text h in
    let size : text_length (marks n) - 1 ≡ n = let s = text_length-marks n in omega (arith, s) in
    (
      rw (sym q) (marks_not_empty n),
      (("get", pos (text_length text - 1)) ∷ [], refl, λ t. rw (sym q, size, e) refl),
    )
sample_reads_back [] text h = absurd (ground (arith, h))
sample_reads_back ((tool, negsuc n) ∷ []) text h = absurd (ground (arith, h))
sample_reads_back ((tool, pos n) ∷ p ∷ m) text h = absurd (ground (arith, h))
sample_reads_back ((tool, negsuc n) ∷ p ∷ m) text h = absurd (ground (arith, h))

abbrev is_get : String → Bool
is_get tool = tool == "get"

same_map : (n m : Assoc ℤ) → some (some n) ≡ some (some m) → n ≡ m
same_map n m h = cc

get_is_text :
    (n : ℕ) (m : Assoc ℤ)
    → some (some (("get", pos n) ∷ [])) ≡ some (some m)
    → All (λ (p : String × ℤ). is_get p.0 ≡ true) m
get_is_text n m h =
    subst (λ (k : Assoc ℤ). All (λ (p : String × ℤ). is_get p.0 ≡ true) k)
      (same_map (("get", pos n) ∷ []) m h) (refl, tt)

sample-JsonLaws : JsonLaws sample_json is_get
sample-JsonLaws = record {
  reads_back = λ m text keys h. sample_reads_back m text h;
  parsed_text = λ text m h. get_is_text (text_length text - 1) m h;
}

abbrev well : Faults
well = record {
  lock_ok = true;
  read_ok = true;
  truncate_ok = true;
  seek_ok = true;
  writing = wrote;
  sync_ok = true;
}

abbrev counter : QuotaCounter
counter = record { file = some "ii." }

increment_counts_example :
    (old : ℤ) × (count_in sample_json "get" (some "ii.") ≡ some old)
    × (pos 3 ≡ succ old)
    × (count_in sample_json "get" (increment sample_json well "get" counter).0.file
        ≡ (if "get" == "get" then some (pos 3) else count_in sample_json "get" (some "ii.")))
unfolding increment read_text lookup insert text_length marks succ
increment_counts_example =
    increment_counts sample_json is_get sample-JsonLaws well "get" "get" counter (pos 3) refl refl

-- ===== src/Policy/Validation.antt =====
-- internal/policy/types.go: `Policy.Validate` and `Conditions.validate`, with the errors as a list
use open_pass.Base.{
  ℕ, ◌+◌, String, ◌≡◌, ◌↔◌, ◌≢◌, refl, sym, ◌∙◌, Bool, true, false, Option, none, some, List, [],
  ◌∷◌, ◌++◌, ◌==◌, ◌||◌, if◌then◌else◌, arith, inl, inr, Bool-cases, Option-cases, any, is_some,
}
use open_pass.Base.Assoc.{Assoc, lookup, insert, lookup-insert}
use open_pass.Policy.{Policy, Rule, Conditions, TimeRange, is_valid_action}
use open_pass.Policy.TimeOfDay.{ClockParser, parse_range}

pub data ValidationError : Type 0 where
  policy_is_nil version_required rules_required : ValidationError
  name_required : (index : ℕ) → ValidationError
  duplicate_name : (name : String) (index first : ℕ) → ValidationError
  invalid_action invalid_time_of_day invalid_action_type : (name : String) → ValidationError

abbrev known_action_types : List String
known_action_types = "read" ∷ "write" ∷ "delete" ∷ "run" ∷ "list" ∷ "get" ∷ "set" ∷ "find" ∷ []

-- what one rule adds for its name: the errors, and the names seen
abbrev name_errors : ℕ → Assoc ℕ → String → List ValidationError
name_errors i seen name =
    if name == ""
    then name_required i ∷ []
    else elim (lookup name seen) [ none ↦ [] | some first ↦ duplicate_name name i first ∷ [] ]

abbrev seen_after : ℕ → Assoc ℕ → String → Assoc ℕ
seen_after i seen name =
    if name == ""
    then seen
    else elim (lookup name seen) [ none ↦ insert name i seen | some first ↦ seen ]

abbrev action_errors : Rule → List ValidationError
action_errors r = if is_valid_action r.action then [] else invalid_action r.name ∷ []

append-eq-nil {ℓ} : {A : Type ℓ} (xs ys : List A) → (xs ++ ys) ≡ [] → (xs ≡ []) × (ys ≡ [])
append-eq-nil [] ys h = (refl, h)
append-eq-nil (x ∷ xs) ys h = cc

module _ (clock : ClockParser) where
  abbrev time_ok : Option TimeRange → Bool
  time_ok none = true
  time_ok (some r) = is_some (parse_range clock r)

  -- `Conditions.validate`, whose error is named after the rule
  pub validate_conditions : String → Conditions → List ValidationError
  validate_conditions name c =
      if time_ok c.time_of_day
      then (if c.action_type == "" || any (λ known. c.action_type == known) known_action_types
          then []
          else invalid_action_type name ∷ [])
      else invalid_time_of_day name ∷ []

  -- the loop over the rules
  pub validate_rules : ℕ → Assoc ℕ → List Rule → List ValidationError
  validate_rules i seen [] = []
  validate_rules i seen (r ∷ rules) =
      name_errors i seen r.name
      ++ (action_errors r
          ++ (validate_conditions r.name r.conditions
              ++ validate_rules (i + 1) (seen_after i seen r.name) rules))

  abbrev validate_listed : String → List Rule → List ValidationError
  validate_listed version [] = if version == "" then version_required ∷ [] else rules_required ∷ []
  validate_listed version (r ∷ rules) =
      if version == "" then version_required ∷ [] else validate_rules 0 [] (r ∷ rules)

  -- `Validate`: no error is the empty list
  pub validate : Option Policy → List ValidationError
  unfolding validate_rules validate_conditions
  validate none = policy_is_nil ∷ []
  validate (some p) = validate_listed p.version p.rules

  -- What is asked of a rule by itself.
  pub record IsSound (r : Rule) : Type 0 where
    pub named : (r.name == "") ≡ false
    pub action_known : is_valid_action r.action ≡ true
    pub time_parses : time_ok r.conditions.time_of_day ≡ true
    pub type_known :
        (r.conditions.action_type == ""
          || any (λ known. r.conditions.action_type == known) known_action_types)
        ≡ true

  -- Each rule is sound, and its name is none of those seen before it.
  abbrev pub AreSound : List Rule → List Rule → Type 0
  AreSound before [] = Unit
  AreSound before (r ∷ rules) =
      IsSound r × (any (λ b. b.name == r.name) before ≡ false) × AreSound (r ∷ before) rules

  -- The names seen are those of the rules before.
  abbrev Names : Assoc ℕ → List Rule → Type 0
  Names seen before = (n : String) → is_some (lookup n seen) ≡ any (λ b. b.name == n) before

  Names-seen_after :
      (i : ℕ) (seen : Assoc ℕ) (r : Rule) (before : List Rule)
      → (r.name == "") ≡ false
      → Names seen before
      → lookup r.name seen ≡ none
      → Names (seen_after i seen r.name) (r ∷ before)
  Names-seen_after i seen r before named names new n =
      rw (named, new, lookup-insert) (ground (arith, names n))

  no_name_errors :
      (i : ℕ) (seen : Assoc ℕ) (name : String)
      → name_errors i seen name ≡ []
      → ((name == "") ≡ false) × (lookup name seen ≡ none)
  no_name_errors i seen name h = elim (Option-cases (lookup name seen)) [
    | inl e ↦ (ground (arith, h), e)
    | inr (k, e) ↦ absurd (ground (arith, h, e))
  ]

  rule-IsSound :
      (r : Rule)
      → (r.name == "") ≡ false
      → action_errors r ≡ []
      → validate_conditions r.name r.conditions ≡ []
      → IsSound r
  unfolding validate_conditions
  rule-IsSound r named a c = record {
    named = named;
    action_known = ground (arith, a);
    time_parses = ground (arith, c);
    type_known = ground (arith, c);
  }

  validate_rules_sound :
      (i : ℕ) (seen : Assoc ℕ) (before rules : List Rule)
      → Names seen before
      → validate_rules i seen rules ≡ []
      → AreSound before rules
  unfolding validate_rules
  validate_rules_sound i seen before [] names h = tt
  validate_rules_sound i seen before (r ∷ rules) names h =
      let (hn, h') = append-eq-nil (name_errors i seen r.name) _ h in
      let (ha, h'') = append-eq-nil (action_errors r) _ h' in
      let (hc, hr) = append-eq-nil (validate_conditions r.name r.conditions) _ h'' in
      let (named, new) = no_name_errors i seen r.name hn in
      (
        rule-IsSound r named ha hc,
        sym (names r.name) ∙ rw new,
        validate_rules_sound (i + 1) (seen_after i seen r.name) (r ∷ before) rules
            (Names-seen_after i seen r before named names new) hr,
      )

  validate_rules_complete :
      (i : ℕ) (seen : Assoc ℕ) (before rules : List Rule)
      → Names seen before
      → AreSound before rules
      → validate_rules i seen rules ≡ []
  unfolding validate_rules validate_conditions
  validate_rules_complete i seen before [] names h = refl
  validate_rules_complete i seen before (r ∷ rules) names (s, new, h) =
      elim (Option-cases (lookup r.name seen)) [
        | inl e ↦
            rw (s.named, e, s.action_known, s.time_parses, s.type_known)
              (validate_rules_complete (i + 1) (insert r.name i seen) (r ∷ before) rules
                (λ n. rw lookup-insert (ground (arith, names n))) h)
        | inr (k, e) ↦ absurd (ground (arith, names r.name, new, e))
      ]

  no-Names : Names [] []
  unfolding lookup
  no-Names n = refl

  validate_listed_iff :
      (version : String) (rules : List Rule)
      → (validate_listed version rules ≡ [])
        ↔ (((version == "") ≡ false) × (rules ≢ []) × AreSound [] rules)
  validate_listed_iff version [] = (λ h. absurd (ground (arith, h)), λ h. absurd (h.1 refl))
  validate_listed_iff version (r ∷ rules) = (
    λ h. (ground (arith, h), (cc), validate_rules_sound 0 [] [] (r ∷ rules) no-Names (listed h)),
    λ h. rw h.0 (validate_rules_complete 0 [] [] (r ∷ rules) no-Names h.2),
  )
    where
      listed :
          (if version == "" then version_required ∷ [] else validate_rules 0 [] (r ∷ rules)) ≡ []
          → validate_rules 0 [] (r ∷ rules) ≡ []
      listed h = elim (Bool-cases (version == "")) [
        | inl e ↦ absurd (ground (arith, h, e))
        | inr e ↦ rw e at h
      ]

  -- A policy passes `Validate` exactly when it has a version and a rule, every rule has a name, a known
  -- action, a time range that parses and a known action type where it has one, and no two rules have
  -- one name.
  validate_iff :
      (p : Policy)
      → (validate (some p) ≡ [])
        ↔ (((p.version == "") ≡ false) × (p.rules ≢ []) × AreSound [] p.rules)
  unfolding validate
  validate_iff p = validate_listed_iff p.version p.rules

-- ===== src/Audit/Failure/Classes.antt =====
-- crates/audit-local/src/aws_error.rs: what a failure that was classified says of its chain.
use aws_net_hound.Base.{
  ◌≡◌, refl, ap, ◌∙◌, Option, none, some, List, [], ◌∷◌, Bool, true, false, String, str_eq,
  str_eq_iff, ◌⊎◌, inl, inr, if◌then◌else◌,
}
use mathlib.Core.List.{Mem, mem-cons_self, mem-cons_of_mem}
use aws_net_hound.Audit.Failure.{
  credentials_not_loaded, invalid_configuration, other_error, Operation, Cause, credentials, sts,
  ec2, other_cause, access_denied, other_failure, iam_action_for, Class, profile_missing,
  not_configured, expired, denied, throttling, into_failure, is_one_of, denied_codes, expired_codes,
  throttling_codes, classify_code, classify_credentials_error, operation_name,
  classify_describe_error, classify_cause, find_class, classify,
}

-- The cause says that the operation was not allowed: an error of STS, or of that operation, whose code
-- is one of the four.
pub record Denies (operation : String) (cause : Cause) : Type 0 where
  pub code : String
  pub is_denied : is_one_of code denied_codes ≡ true
  pub origin :
      (cause ≡ sts (some code))
      ⊎ ((called : Operation) × (cause ≡ ec2 called (some code))
          × (operation ≡ operation_name called))

classify_code-denied :
    (operation : String) (code : Option String) {name action : String}
    → classify_code operation code ≡ some (denied name action)
    → (c : String) × (code ≡ some c)
      × (is_one_of c denied_codes ≡ true)
      × (name ≡ operation)
      × (action ≡ iam_action_for operation)
unfolding classify_code
classify_code-denied operation none e = absurd cc
classify_code-denied operation (some code) {name = name} {action = action} e =
    go (is_one_of code expired_codes) (is_one_of code denied_codes)
      (is_one_of code throttling_codes) refl e
  where
    go :
        (p q r : Bool)
        → is_one_of code denied_codes ≡ q
        → (if p
            then some expired
            else if q
            then some (denied operation (iam_action_for operation))
            else if r
            then some throttling
            else none)
          ≡ some (denied name action)
        → (c : String) × (some code ≡ some c)
          × (is_one_of c denied_codes ≡ true)
          × (name ≡ operation)
          × (action ≡ iam_action_for operation)
    go true q r is e = absurd cc
    go false true r is e = (code, refl, is, cc, cc)
    go false false true is e = absurd cc
    go false false false is e = absurd cc

classify_cause-denied :
    (operation : String) (profile : Option String) (cause : Cause) {name action : String}
    → classify_cause operation profile cause ≡ some (denied name action)
    → Denies operation cause × (name ≡ operation) × (action ≡ iam_action_for operation)
unfolding classify_cause classify_credentials_error classify_describe_error
classify_cause-denied operation profile (credentials credentials_not_loaded) e = absurd cc
classify_cause-denied operation profile (credentials invalid_configuration) e = absurd cc
classify_cause-denied operation profile (credentials other_error) e = absurd cc
classify_cause-denied operation profile (sts code) e =
    let (c, known, is, name, action) = classify_code-denied operation code e in
    (record { code = c; is_denied = is; origin = inl (ap sts known) }, name, action)
classify_cause-denied operation profile (ec2 called code) {name = name} {action = action} e =
    go (str_eq operation (operation_name called)) refl e
  where
    go :
        (b : Bool)
        → str_eq operation (operation_name called) ≡ b
        → (if b then classify_code operation code else none) ≡ some (denied name action)
        → Denies operation (ec2 called code)
          × (name ≡ operation)
          × (action ≡ iam_action_for operation)
    go true same e =
        let (c, known, is, name, action) = classify_code-denied operation code e in
        (
          record {
            code = c;
            is_denied = is;
            origin = inr (called, ap (ec2 called) known, (str_eq_iff _ _).0 same);
          },
          name,
          action,
        )
    go false other e = absurd cc
classify_cause-denied operation profile other_cause e = absurd cc

abbrev Found : String → Option String → Class → List Cause → Type 0
Found operation profile class chain =
    (cause : Cause) × Mem cause chain × (classify_cause operation profile cause ≡ some class)

find_class-Found :
    (operation : String) (profile : Option String) (chain : List Cause) {class : Class}
    → find_class operation profile chain ≡ some class
    → Found operation profile class chain
unfolding find_class
find_class-Found operation profile [] e = absurd cc
find_class-Found operation profile (cause ∷ causes) {class = class} e =
    go (classify_cause operation profile cause) refl e (find_class-Found operation profile causes)
  where
    go :
        (first : Option Class)
        → classify_cause operation profile cause ≡ first
        → elim first [ some class ↦ some class | none ↦ find_class operation profile causes ]
          ≡ some class
        → (find_class operation profile causes ≡ some class → Found operation profile class causes)
        → Found operation profile class (cause ∷ causes)
    go none is e later =
        let (found, place, classified) = later e in (found, mem-cons_of_mem _ place, classified)
    go (some first) is e later = (cause, mem-cons_self, is ∙ e)

into_failure-denied :
    (class : Class) (chain : List Cause) {name action : String} {source : List Cause}
    → into_failure class chain ≡ access_denied name action source
    → (class ≡ denied name action) × (source ≡ chain)
unfolding into_failure
into_failure-denied (profile_missing profile) chain e = absurd cc
into_failure-denied not_configured chain e = absurd cc
into_failure-denied expired chain e = absurd cc
into_failure-denied (denied name action) chain e = (cc, cc)
into_failure-denied throttling chain e = absurd cc

-- An access-denied failure names the operation that was asked about and the IAM action that belongs to
-- it, keeps the whole chain, and has a cause in that chain: an error of STS, or of that very operation,
-- with one of the codes for a denied call.
pub classify-access_denied :
    (profile : Option String) (operation : String) (chain : List Cause) {name action : String}
    {source : List Cause}
    → classify profile operation chain ≡ access_denied name action source
    → (name ≡ operation)
      × (action ≡ iam_action_for operation)
      × (source ≡ chain)
      × ((cause : Cause) × Mem cause chain × Denies operation cause)
unfolding classify
classify-access_denied profile operation chain {name = name} {action = action} {source = source} e =
    go (find_class operation profile chain) refl e
  where
    go :
        (class : Option Class)
        → find_class operation profile chain ≡ class
        → elim class [ some class ↦ into_failure class chain | none ↦ other_failure chain ]
          ≡ access_denied name action source
        → (name ≡ operation)
          × (action ≡ iam_action_for operation)
          × (source ≡ chain)
          × ((cause : Cause) × Mem cause chain × Denies operation cause)
    go none is e = absurd cc
    go (some class) is e =
        let (denies_class, kept) = into_failure-denied class chain e in
        let (cause, place, found) = find_class-Found operation profile chain is in
        let (denies, named, acted) =
          classify_cause-denied operation profile cause (found ∙ ap some denies_class) in
        (named, acted, kept, (cause, place, denies))

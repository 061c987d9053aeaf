-- ===== src/Checks/Assertions/Operators.antt =====
-- `compare` of workers/checks/src/assertions.ts: what the operators ask of a candidate.
use alphaping.Prelude.{
  ◌≡◌, refl, Bool, true, false, Option, none, some, String, str_eq, eq_iff, List, [], ◌∷◌, arith,
}
use alphaping.Prelude.Outcome.{Outcome, ok, throw, stuck, ok_injective}
use alphaping.Prelude.Json.{Value, number, text, array, Items}
use alphaping.Checks.Assertions.{
  AssertionOperator, exists, equals, contains, matches, type, greater_than, less_than,
  CheckAssertion, Platform, value_type, is_defined, is_typed, equal_options, is_contained,
  is_matched, is_greater, is_less, some_item, compare_value, some_candidate,
}

module _ {N : Type 0} (platform : Platform N) where
  -- What each operator asks of a candidate and the expected value.
  pub data Holds : AssertionOperator → Option (Value N) → Option (Value N) → Type 0 where
    is_there : (value : Value N) (expected : Option (Value N)) → Holds exists (some value) expected
    is_equal :
        (candidate expected : Option (Value N))
        → equal_options platform candidate expected ≡ true
        → Holds equals candidate expected
    has_text :
        (a b : String)
        → platform.includes a b ≡ true
        → Holds contains (some (text a)) (some (text b))
    has_item :
        (items : Items N) (expected : Option (Value N))
        → some_item platform items expected ≡ true
        → Holds contains (some (array items)) expected
    is_found :
        (a b : String) → platform.find b a ≡ ok true → Holds matches (some (text a)) (some (text b))
    has_type :
        (candidate : Option (Value N)) (name : String)
        → value_type candidate ≡ name
        → Holds type candidate (some (text name))
    is_above :
        (a b : N)
        → platform.less_than_number b a ≡ true
        → Holds greater_than (some (number a)) (some (number b))
    is_below :
        (a b : N)
        → platform.less_than_number a b ≡ true
        → Holds less_than (some (number a)) (some (number b))

  is_defined-Holds :
      (candidate expected : Option (Value N))
      → is_defined candidate ≡ true
      → Holds exists candidate expected
  is_defined-Holds none expected e = cc
  is_defined-Holds (some value) expected e = Holds.is_there value expected

  is_contained-Holds :
      (candidate expected : Option (Value N))
      → is_contained platform candidate expected ≡ true
      → Holds contains candidate expected
  is_contained-Holds (some (text a)) (some (text b)) e = Holds.has_text a b e
  is_contained-Holds (some (array items)) expected e = Holds.has_item items expected e
  is_contained-Holds _ _ e = cc

  is_matched-Holds :
      (candidate expected : Option (Value N))
      → is_matched platform candidate expected ≡ ok true
      → Holds matches candidate expected
  is_matched-Holds (some (text a)) (some (text b)) e = Holds.is_found a b e
  is_matched-Holds _ _ e = cc

  is_typed-Holds :
      (candidate expected : Option (Value N))
      → is_typed candidate expected ≡ true
      → Holds type candidate expected
  is_typed-Holds candidate (some (text name)) e =
      Holds.has_type candidate name (ground (arith, e, eq_iff (value_type candidate) name))
  is_typed-Holds candidate _ e = cc

  is_greater-Holds :
      (candidate expected : Option (Value N))
      → is_greater platform candidate expected ≡ true
      → Holds greater_than candidate expected
  is_greater-Holds (some (number a)) (some (number b)) e = Holds.is_above a b e
  is_greater-Holds _ _ e = cc

  is_less-Holds :
      (candidate expected : Option (Value N))
      → is_less platform candidate expected ≡ true
      → Holds less_than candidate expected
  is_less-Holds (some (number a)) (some (number b)) e = Holds.is_below a b e
  is_less-Holds _ _ e = cc

  compare_value-Holds :
      (operator : AssertionOperator) (candidate expected : Option (Value N))
      → compare_value platform operator candidate expected ≡ ok true
      → Holds operator candidate expected
  unfolding compare_value
  compare_value-Holds exists candidate expected e =
      is_defined-Holds candidate expected (ok_injective _ _ e)
  compare_value-Holds equals candidate expected e =
      Holds.is_equal candidate expected (ok_injective _ _ e)
  compare_value-Holds contains candidate expected e =
      is_contained-Holds candidate expected (ok_injective _ _ e)
  compare_value-Holds matches candidate expected e = is_matched-Holds candidate expected e
  compare_value-Holds type candidate expected e =
      is_typed-Holds candidate expected (ok_injective _ _ e)
  compare_value-Holds greater_than candidate expected e =
      is_greater-Holds candidate expected (ok_injective _ _ e)
  compare_value-Holds less_than candidate expected e =
      is_less-Holds candidate expected (ok_injective _ _ e)

  Holds-compare_value :
      (operator : AssertionOperator) (candidate expected : Option (Value N))
      → Holds operator candidate expected
      → compare_value platform operator candidate expected ≡ ok true
  unfolding compare_value
  Holds-compare_value _ _ _ (Holds.is_there value expected) = refl
  Holds-compare_value _ _ _ (Holds.is_equal candidate expected e) = rw e refl
  Holds-compare_value _ _ _ (Holds.has_text a b e) = rw e refl
  Holds-compare_value _ _ _ (Holds.has_item items expected e) = rw e refl
  Holds-compare_value _ _ _ (Holds.is_found a b e) = e
  Holds-compare_value _ _ _ (Holds.has_type candidate name e) =
      let same : str_eq (value_type candidate) name ≡ true =
        ground (arith, e, eq_iff (value_type candidate) name) in
      rw same refl
  Holds-compare_value _ _ _ (Holds.is_above a b e) = rw e refl
  Holds-compare_value _ _ _ (Holds.is_below a b e) = rw e refl

  -- The operator holds of one of the candidates, and the comparison with each before it ends without an error.
  pub data Passes (assertion : CheckAssertion N) : List (Option (Value N)) → Type 0 where
    passes_here :
        (candidate : Option (Value N)) (candidates : List (Option (Value N)))
        → Holds assertion.operator candidate assertion.expected
        → Passes assertion (candidate ∷ candidates)
    passes_later :
        (candidate : Option (Value N)) (candidates : List (Option (Value N)))
        → compare_value platform assertion.operator candidate assertion.expected ≡ ok false
        → Passes assertion candidates
        → Passes assertion (candidate ∷ candidates)

  pub some_candidate-Passes :
      (assertion : CheckAssertion N) (candidates : List (Option (Value N)))
      → some_candidate platform assertion candidates ≡ true
      → Passes assertion candidates
  unfolding some_candidate
  some_candidate-Passes assertion [] e = cc
  some_candidate-Passes assertion (candidate ∷ candidates) e =
      by_result (compare_value platform assertion.operator candidate assertion.expected) refl
        (some_candidate-Passes assertion candidates)
    where
      by_result :
          (result : Outcome Bool)
          → compare_value platform assertion.operator candidate assertion.expected ≡ result
          → (some_candidate platform assertion candidates ≡ true → Passes assertion candidates)
          → Passes assertion (candidate ∷ candidates)
      by_result (ok true) h ih =
          Passes.passes_here candidate candidates
            (compare_value-Holds assertion.operator candidate assertion.expected h)
      by_result (ok false) h ih =
          Passes.passes_later candidate candidates h (ih (rw (some_candidate, h) at e))
      by_result (throw message) h ih = cc (rw (some_candidate, h) at e)
      by_result stuck h ih = cc (rw (some_candidate, h) at e)

  pub Passes-some_candidate :
      (assertion : CheckAssertion N) (candidates : List (Option (Value N)))
      → Passes assertion candidates
      → some_candidate platform assertion candidates ≡ true
  unfolding some_candidate
  Passes-some_candidate assertion _ (Passes.passes_here candidate candidates holds) =
      rw (some_candidate, Holds-compare_value assertion.operator candidate assertion.expected holds)
        refl
  Passes-some_candidate assertion _ (Passes.passes_later candidate candidates h passes) =
      rw (some_candidate, h) (Passes-some_candidate assertion candidates passes)

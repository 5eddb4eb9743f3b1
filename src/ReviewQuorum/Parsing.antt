-- ===== src/ReviewQuorum/Parsing.antt =====
-- experiments/review_quorum.py, the helpers at its end: the checks of single fields. An error carries
-- the name of the field that it is about.
use text.Mathlib.Text.{starts_with}
use llm_arbitrage_system.Base.{
  String, Bool, true, false, not, ◌&&◌, ◌||◌, Option, none, some, List, str_eq,
}
use llm_arbitrage_system.Base.Tests.{ltb, leb, ◌==◌}
use llm_arbitrage_system.Base.Lists.{any}
use llm_arbitrage_system.Base.Int.{ℤ, ltb_ℤ}
use llm_arbitrage_system.Base.Result.{Result, ok, err, raise_if, ◌>>=◌, ◌>>◌}
use llm_arbitrage_system.Json.{Json, bool, int, string, object, Fields, end, field, get_field}
use llm_arbitrage_system.Base.Texts.{all_hex, char_count, has_hex_form, has_nul, strip}

pub data QuorumError : Type 0 where
  invalid_field invalid_fields mismatch : String → QuorumError
  not_eligible blocked_candidate same_keys reviewer_not_apart : QuorumError
  duplicate_record duplicate_key duplicate_subject unverified_review : QuorumError
  wrong_order not_canonical wrong_encoding : QuorumError

abbrev pub Checked : Type 0 → Type 0
Checked A = Result QuorumError A

-- `_string`
unfoldable pub checked_string : Option Json → String → Checked String
checked_string (some (string value)) name = do
  raise_if (str_eq value "" || has_nul value) (invalid_field name)
  ok value
checked_string _ name = err (invalid_field name)

-- `_integer`
unfoldable pub checked_integer : Option Json → String → ℤ → Checked ℤ
checked_integer (some (int value)) name minimum = do
  raise_if (ltb_ℤ value minimum) (invalid_field name)
  ok value
checked_integer _ name minimum = err (invalid_field name)

-- `_boolean`
unfoldable pub checked_boolean : Option Json → String → Checked Bool
checked_boolean (some (bool value)) name = ok value
checked_boolean _ name = err (invalid_field name)

-- `_object`
unfoldable pub checked_object : Option Json → String → Checked Fields
checked_object (some (object payload)) name = ok payload
checked_object _ name = err (invalid_field name)

-- `_identifier`
unfoldable pub checked_identifier : Option Json → String → String → Checked String
unfolding checked_string
checked_identifier value prefix name = do
  text ← checked_string value name
  raise_if (not (has_hex_form prefix 40 text)) (invalid_field name)
  ok text

-- `_digest_value`
unfoldable pub digest_value : Option Json → String → Checked String
unfolding checked_string
digest_value value name = do
  text ← checked_string value name
  raise_if (not (char_count text == 64 && all_hex text)) (invalid_field name)
  ok text

-- `_key_id`
unfoldable pub checked_key_id : Option Json → String → Checked String
unfolding checked_string
checked_key_id value name = do
  text ← checked_string value name
  raise_if (not (has_hex_form "ed25519-" 32 text)) (invalid_field name)
  ok text

-- `_candidate_id`
unfoldable pub checked_candidate_id : String → Checked String
checked_candidate_id value = do
  raise_if
      (not (starts_with value "candidate-")
        || leb (char_count value) (char_count "candidate-")
        || ltb 160 (char_count value)
        || not (str_eq value (strip value)))
      (invalid_field "requested_candidate_id")
  ok value

abbrev pub has_fields : List String → Fields → Bool
has_fields keys end = true
has_fields keys (field k v rest) = any (λ key. str_eq key k) keys && has_fields keys rest

abbrev pub is_present : {A : Type 0} → Option A → Bool
is_present none = false
is_present (some _) = true

-- `set(payload) == set(keys)`
abbrev pub same_keys_as : List String → Fields → Bool
same_keys_as keys payload =
    has_fields keys payload && not (any (λ key. not (is_present (get_field key payload))) keys)

-- `_require_fields`
unfoldable pub require_fields : String → Fields → List String → Checked (Unit {0})
require_fields name payload allowed =
    raise_if (not (same_keys_as allowed payload)) (invalid_fields name)

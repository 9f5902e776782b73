-- ===== src/Analysis/Reply/Valid.antt =====
-- A payload that is accepted is valid.
use hate_speech_rag_service.Common.{
  String, Bool, true, false, Option, none, some, [], ◌∷◌, ◌≡◌, refl, ap, sym, ◌∙◌, arith,
  if◌then◌else◌,
}
use hate_speech_rag_service.Common.Json.{Json, Fields, obj}
use hate_speech_rag_service.Analysis.Validator.{
  ValidationResult, validate_fields, validate_classification_output,
}
use hate_speech_rag_service.Analysis.Reply.{
  OutputError, accepted, refused, judge, errors_of, extract_json, validated_payload,
}

judge-accepted :
    (j : Json) (o : Option ValidationResult) (p : Fields) (v : ValidationResult)
    → judge j o ≡ accepted p v
    → (j ≡ obj p) × (o ≡ some v) × (v.valid ≡ true)
judge-accepted (obj q) none p v h = absurd (ground arith)
judge-accepted (obj q) (some r) p v h = go r.valid refl h
  where
    go :
        (b : Bool)
        → r.valid ≡ b
        → (if b then accepted q r else refused (errors_of r.errors)) ≡ accepted p v
        → (obj q ≡ obj p) × (some r ≡ some v) × (v.valid ≡ true)
    go true e k = (ground arith, ground arith, ground (arith, e))
    go false e k = absurd (ground arith)
judge-accepted Json.null o p v h = absurd (ground arith)
judge-accepted (Json.bool b) o p v h = absurd (ground arith)
judge-accepted (Json.int n) o p v h = absurd (ground arith)
judge-accepted (Json.number n) o p v h = absurd (ground arith)
judge-accepted (Json.str t) o p v h = absurd (ground arith)
judge-accepted (Json.arr i) o p v h = absurd (ground arith)

valid_fields :
    (j : Json) (p : Fields) (v : ValidationResult)
    → j ≡ obj p
    → validate_classification_output j ≡ some v
    → v.valid ≡ true
    → (validate_fields p).valid ≡ true
unfolding validate_classification_output
valid_fields j p v same checked valid =
    go (validate_fields p) (sym (ap validate_classification_output same) ∙ checked)
  where
    go : (r : ValidationResult) → some r ≡ some v → r.valid ≡ true
    go r e = ground (arith, valid)

pub validated_payload-accepted :
    (loads : String → Option Json) (text : String) (p : Fields) (v : ValidationResult)
    → validated_payload loads text ≡ accepted p v
    → (validate_fields p).valid ≡ true
unfolding validated_payload
validated_payload-accepted loads text p v h = go (loads (extract_json text)) h
  where
    go :
        (o : Option Json)
        → elim o [
          | none ↦ refused (OutputError.json_parse_failed ∷ [])
          | some j ↦ judge j (validate_classification_output j)
        ]
          ≡ accepted p v
        → (validate_fields p).valid ≡ true
    go none k = absurd (ground arith)
    go (some j) k =
        let (same, checked, valid) = judge-accepted j (validate_classification_output j) p v k in
        valid_fields j p v same checked valid

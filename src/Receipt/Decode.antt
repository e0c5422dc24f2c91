-- ===== src/Receipt/Decode.antt =====
-- A reader of the canonical payload of src/py-inference/src/inference/receipt.py, and the round trip.
use openmodel.Base.{All, ℕ, ◌≡◌, refl, true, false, [], ◌∷◌, ◌++◌, Option, none, some, arith, ◌==◌}
use openmodel.Base.Text.{Text, codes}
use openmodel.Receipt.Json.{json_dumps}
use openmodel.Receipt.Character.{IsScalarValue}
use openmodel.Receipt.Reader.{read_json, read_json-json_dumps}
use openmodel.Receipt.Decimal.{decimal, read_decimal, read_decimal-decimal, Stops}
use openmodel.Receipt.Payload.{Attestation, canonical_payload}

-- The text behind a fixed beginning.
expect : Text → Text → Option Text
expect [] s = some s
expect (c ∷ t) [] = none
expect (c ∷ t) (d ∷ s) = elim (c == d) [ true ↦ expect t s | false ↦ none ]

expect_lem : (t rest : Text) → expect t (t ++ rest) ≡ some rest
unfolding expect
expect_lem [] rest = refl
expect_lem (c ∷ t) rest = ground (arith, expect_lem t rest)

infixl 5 ◌>>=◌
abbrev ◌>>=◌ : {A B : Type 0} → Option A → (A → Option B) → Option B
none >>= f = none
some a >>= f = f a

number_after : Text → Text → Option (ℕ × Text)
number_after t s = expect t s >>= read_decimal

text_after : Text → Text → Option (Text × Text)
text_after t s = expect t s >>= read_json

number_after_lem :
    (t rest : Text) (n : ℕ)
    → Stops rest
    → number_after t (t ++ (decimal n ++ rest)) ≡ some (n, rest)
unfolding number_after
number_after_lem t rest n h = rw (expect_lem t (decimal n ++ rest)) (read_decimal-decimal n rest h)

text_after_lem :
    (t rest s : Text)
    → All IsScalarValue s
    → text_after t (t ++ (json_dumps s ++ rest)) ≡ some (s, rest)
unfolding text_after
text_after_lem t rest s v = rw (expect_lem t (json_dumps s ++ rest)) (read_json-json_dumps s rest v)

pub read_payload : Text → Option Attestation
read_payload s0 = number_after (codes "{\"cached_tokens\":") s0 >>= λ cached.
    number_after (codes ",\"completion_tokens\":") cached.1 >>= λ completion.
    text_after (codes ",\"model\":") completion.1 >>= λ model.
    number_after (codes ",\"prompt_tokens\":") model.1 >>= λ prompt.
    text_after (codes ",\"pubkey\":") prompt.1 >>= λ pubkey.
    text_after (codes ",\"request_id\":") pubkey.1 >>= λ id.
    text_after (codes ",\"request_sha256\":") id.1 >>= λ request.
    text_after (codes ",\"response_sha256\":") request.1 >>= λ response.
    number_after (codes ",\"ts\":") response.1 >>= λ ts. expect (codes ",\"v\":1}") ts.1 >>= λ rest.
    some (record {
      request_id = id.0;
      model = model.0;
      request_sha256 = request.0;
      response_sha256 = response.0;
      prompt_tokens = prompt.0;
      completion_tokens = completion.0;
      cached_tokens = cached.0;
      ts = ts.0;
      pubkey = pubkey.0;
    })

-- Every text of the attestation can be encoded in UTF-8.
pub record IsEncodable (a : Attestation) : Type 0 where
  pub model : All IsScalarValue a.model
  pub pubkey : All IsScalarValue a.pubkey
  pub request_id : All IsScalarValue a.request_id
  pub request_sha256 : All IsScalarValue a.request_sha256
  pub response_sha256 : All IsScalarValue a.response_sha256

-- The canonical payload determines every field of the receipt: a reader of the fixed template gets
-- all of them back, for texts that UTF-8 can encode. So one signature attests one receipt.
pub read-canonical_payload :
    (a : Attestation) → IsEncodable a → read_payload (canonical_payload a) ≡ some a
unfolding read_payload canonical_payload expect
read-canonical_payload a v =
    rw
      (
        number_after_lem (codes "{\"cached_tokens\":") _ a.cached_tokens refl,
        number_after_lem (codes ",\"completion_tokens\":") _ a.completion_tokens refl,
        text_after_lem (codes ",\"model\":") _ a.model v.model,
        number_after_lem (codes ",\"prompt_tokens\":") _ a.prompt_tokens refl,
        text_after_lem (codes ",\"pubkey\":") _ a.pubkey v.pubkey,
        text_after_lem (codes ",\"request_id\":") _ a.request_id v.request_id,
        text_after_lem (codes ",\"request_sha256\":") _ a.request_sha256 v.request_sha256,
        text_after_lem (codes ",\"response_sha256\":") _ a.response_sha256 v.response_sha256,
        number_after_lem (codes ",\"ts\":") _ a.ts refl,
      )
      refl

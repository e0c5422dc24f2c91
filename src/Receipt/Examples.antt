-- ===== src/Receipt/Examples.antt =====
-- A stand-in for ed25519, receipts of src/py-inference/src/inference/receipt.py, and the theorems at
-- them.
use openmodel.Base.{◌≡◌, refl, arith, true, ◌++◌, some}
use openmodel.Base.Text.{Text, codes}
use openmodel.Receipt.Payload.{Attestation, canonical_payload}
use openmodel.Receipt.Decode.{read_payload, IsEncodable, read-canonical_payload}
use openmodel.Receipt.Signer.{Ed25519, IsLawful, ReceiptSigner}

-- A key is its own text, and a signature is the key before the text.
abbrev pub plain_keys : Ed25519
plain_keys = record {
  Key = Text;
  from_private_bytes = λ t. some t;
  private_bytes = λ k. k;
  pubkey_hex = λ k. k;
  sign_hex = λ k t. k ++ t;
}

plain_keys-IsLawful : IsLawful plain_keys
plain_keys-IsLawful = record { from-private = λ k. refl }

abbrev pub first_signer : ReceiptSigner plain_keys
first_signer = record { key = codes "k1"; persistent = true }

abbrev attested : Attestation
attested = record {
  request_id = codes "r-1";
  model = codes "a\"b\\\n";
  request_sha256 = codes "0f";
  response_sha256 = codes "1e";
  prompt_tokens = 12;
  completion_tokens = 0;
  cached_tokens = 10;
  ts = 1700000000;
  pubkey = codes "k1";
}

attested-IsEncodable : IsEncodable attested
attested-IsEncodable = record {
  model = ground arith;
  pubkey = ground arith;
  request_id = ground arith;
  request_sha256 = ground arith;
  response_sha256 = ground arith;
}

read-canonical_payload_example : read_payload (canonical_payload attested) ≡ some attested
read-canonical_payload_example = read-canonical_payload attested attested-IsEncodable

-- A worker without a key file signs, starts anew, and signs again.

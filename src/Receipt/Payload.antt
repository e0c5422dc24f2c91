-- ===== src/Receipt/Payload.antt =====
-- src/py-inference/src/inference/receipt.py: `canonical_payload`. The text is ASCII, so its code
-- points are its bytes.
use openmodel.Base.{ℕ, ◌++◌}
use openmodel.Base.Text.{Text, codes}
use openmodel.Receipt.Json.{json_dumps}
use openmodel.Receipt.Decimal.{decimal}

-- What a receipt attests.
pub record Attestation : Type 0 where
  pub request_id : Text
  pub model : Text
  pub request_sha256 : Text
  pub response_sha256 : Text
  pub prompt_tokens : ℕ
  pub completion_tokens : ℕ
  pub cached_tokens : ℕ
  pub ts : ℕ
  pub pubkey : Text

unfoldable pub canonical_payload : Attestation → Text
canonical_payload a =
    codes "{\"cached_tokens\":"
    ++ (decimal a.cached_tokens
        ++ (codes ",\"completion_tokens\":"
            ++ (decimal a.completion_tokens
                ++ (codes ",\"model\":"
                    ++ (json_dumps a.model
                        ++ (codes ",\"prompt_tokens\":"
                            ++ (decimal a.prompt_tokens
                                ++ (codes ",\"pubkey\":"
                                    ++ (json_dumps a.pubkey
                                        ++ (codes ",\"request_id\":"
                                            ++ (json_dumps a.request_id
                                                ++ (codes ",\"request_sha256\":"
                                                    ++ (json_dumps a.request_sha256
                                                        ++ (codes ",\"response_sha256\":"
                                                            ++ (json_dumps a.response_sha256
                                                            ++ (codes ",\"ts\":"
                                                            ++ (decimal a.ts
                                                            ++ codes ",\"v\":1}")))))))))))))))))

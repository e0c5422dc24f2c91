-- ===== src/Receipt/Signer.antt =====
-- src/py-inference/src/inference/receipt.py: ReceiptSigner, `get_signer` and `build_receipt`. The
-- package `cryptography` is a parameter. The outer exception handler is for OSError alone.
use openmodel.Base.{ℕ, ◌≡◌, refl, Bool, true, false, Option, none, some, arith, if◌then◌else◌}
use openmodel.Base.Text.{Text}
use openmodel.Receipt.Payload.{Attestation, canonical_payload}

-- What the code uses of ed25519: texts are hexadecimal digits or raw bytes.
pub record Ed25519 : Type 1 where
  pub Key : Type 0
  pub from_private_bytes : Text → Option Key  -- none: ValueError
  pub private_bytes : Key → Text
  pub pubkey_hex : Key → Text
  pub sign_hex : Key → Text → Text

-- A key that is written out and read again is the same key.
pub record IsLawful (E : Ed25519) : Type 0 where
  pub from-private : (k : E.Key) → E.from_private_bytes (E.private_bytes k) ≡ some k

-- The file at WORKER_RECEIPT_KEY; `unreadable`: reading it raises OSError.
pub data KeyFile : Type 0 where
  missing unreadable : KeyFile
  present : Text → KeyFile

-- A receipt, with its signature.
pub record Receipt : Type 0 where
  pub attested : Attestation
  pub sig : Text

module _ (E : Ed25519) where
  pub record ReceiptSigner : Type 0 where
    pub key : E.Key
    pub persistent : Bool

  -- The module's `_signer` and the key file, after a call; `result` none: ValueError.
  pub record Signed : Type 0 where
    pub result : Option ReceiptSigner
    pub signer : Option ReceiptSigner
    pub file : KeyFile

  got : ReceiptSigner → KeyFile → Signed
  got s f = record { result = some s; signer = some s; file = f }

  abbrev signer_of : E.Key → Bool → ReceiptSigner
  signer_of k p = record { key = k; persistent = p }

  load_key : Option E.Key → KeyFile → Signed
  unfolding got
  load_key none f = record { result = none; signer = none; file = f }
  load_key (some k) f = got (signer_of k true) f

  -- The key is made up anew; the file is written if its path can be written to.
  new_key : E.Key → Bool → KeyFile → Signed
  unfolding got
  new_key fresh writable f =
      if writable
      then got (signer_of fresh true) (present (E.private_bytes fresh))
      else got (signer_of fresh false) f

  -- `fresh` is the key that `generate` would give.
  unfoldable pub get_signer : E.Key → Bool → Option ReceiptSigner → KeyFile → Signed
  unfolding got load_key new_key
  get_signer fresh writable (some s) f = got s f
  get_signer fresh writable none missing = new_key fresh writable missing
  get_signer fresh writable none unreadable = got (signer_of fresh false) unreadable
  get_signer fresh writable none (present raw) = load_key (E.from_private_bytes raw) (present raw)

  -- `build_receipt` with the signer that `get_signer` gave, at time `ts`.
  unfoldable pub build_receipt : ReceiptSigner → ℕ → Text → Text → Text → Text → ℕ → ℕ → ℕ → Receipt
  build_receipt s ts request_id model request_sha256 response_sha256 prompt completion cached =
      let a : Attestation = record {
        request_id = request_id;
        model = model;
        request_sha256 = request_sha256;
        response_sha256 = response_sha256;
        prompt_tokens = prompt;
        completion_tokens = completion;
        cached_tokens = cached;
        ts = ts;
        pubkey = E.pubkey_hex s.key;
      } in
      record { attested = a; sig = E.sign_hex s.key (canonical_payload a) }

  -- The signer that a call gives is given by every later call, whatever has become of the file; and
  -- if it is persistent, then a process that starts anew on the file gives the same key: the public
  -- key that the gateway knows does not change.
  pub signer_stable :
      IsLawful E
      → (fresh : E.Key) (writable : Bool) (f : KeyFile) {s : ReceiptSigner}
      → (get_signer fresh writable none f).result ≡ some s
      → ((fresh' : E.Key) (writable' : Bool) (f' : KeyFile)
          → (get_signer fresh' writable' (get_signer fresh writable none f).signer f').result
            ≡ some s)
        × (s.persistent ≡ true
            → (fresh' : E.Key) (writable' : Bool)
            → (get_signer fresh' writable' none (get_signer fresh writable none f).file).result
              ≡ some s)
  unfolding get_signer
  signer_stable L fresh true missing h = (λ x w g. h, λ p x w. rw (L.from-private fresh) h)
  signer_stable L fresh false missing h = (λ x w g. h, λ p x w. absurd (ground arith))
  signer_stable L fresh writable unreadable h = (λ x w g. h, λ p x w. absurd (ground arith))
  signer_stable L fresh writable (present raw) {s} h = loaded (E.from_private_bytes raw) refl h
    where
      loaded :
          (k : Option E.Key)
          → E.from_private_bytes raw ≡ k
          → (load_key k (present raw)).result ≡ some s
          → ((fresh' : E.Key) (writable' : Bool) (f' : KeyFile)
              → (get_signer fresh' writable'
                  (load_key (E.from_private_bytes raw) (present raw)).signer
                  f').result
                ≡ some s)
            × (s.persistent ≡ true
                → (fresh' : E.Key) (writable' : Bool)
                → (get_signer fresh' writable' none
                    (load_key (E.from_private_bytes raw) (present raw)).file).result
                  ≡ some s)
      loaded none e h = absurd (ground arith)
      loaded (some k) e h = rw e (λ x w g. h, λ p x w. rw e h)

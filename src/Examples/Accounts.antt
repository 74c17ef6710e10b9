-- ===== src/Examples/Accounts.antt =====
-- Accounts and lists at concrete inputs.
use div.Common.{
  ℕ, ◌≡◌, refl, arith, Bool, true, some, List, [], ◌∷◌, ◌++◌, length, take, drop, replicate,
}
use div.Types.Address.{Hash}
use div.Rlp.Encoding.{encoding}
use div.Rlp.Integers.{minimal_bytes}
use div.Executor.Create.{compute_create_address}
use div.Executor.Create.Preimage.{compute_create_address-hashes}
use div.Rlp.Decode.{RlpDecoder, RlpError}
use div.Rlp.Suffix.{Before}
use div.Rlp.RoundTrip.{moved}
use div.Rlp.Lists.{list_header, decode_list_header}
use div.Rlp.Lists.RoundTrip.{header, list_encoding, decode_list_header-list_encoding}
use div.State.Account.{
  Account, account_rlp_encode, account_rlp_decode, empty_code_hash, mpt_empty_root,
}
use div.State.Account.RoundTrip.{account_rlp_decode-encode}

abbrev granted : ℕ → Bool
granted n = true

abbrev funded : Account
funded = record {
  nonce = 7;
  balance = record { limb0 = 1000; limb1 = 5; limb2 = 0; limb3 = 0 };
  storage_root = mpt_empty_root;
  code_hash = empty_code_hash;
}

account_rlp_decode-encode_example :
    account_rlp_decode (account_rlp_encode granted funded).stored ≡ some funded
account_rlp_decode-encode_example =
    account_rlp_decode-encode granted (λ n h. refl) funded
      (record {
        nonce = omega arith;
        balance = (omega arith, omega arith, omega arith, omega arith);
        storage_root = refl;
        code_hash = refl;
      })

-- The list of "a" and "b", behind one byte.
abbrev pair : List ℕ
pair = 97 ∷ 98 ∷ []

abbrev at_list : RlpDecoder
at_list = record { input = 7 ∷ 0xc2 ∷ 97 ∷ 98 ∷ 9 ∷ []; pos = 1 }

at_list-Before : Before at_list (list_encoding pair ++ (9 ∷ []))
unfolding list_header
at_list-Before = record { suffix = refl; inside = omega arith; bound = omega arith }

decode_list_header-list_encoding_example :
    (decode_list_header at_list ≡ (
      record {
        payload_length = length pair;
        bytes_consumed = length (header (length pair));
        error = RlpError.rlp_success;
      },
      moved (length (header (length pair))) at_list,
    ))
    × Before (moved (length (header (length pair))) at_list) (pair ++ (9 ∷ []))
decode_list_header-list_encoding_example =
    decode_list_header-list_encoding at_list pair (9 ∷ []) at_list-Before (omega arith)

-- A stand-in for the hash function.
abbrev padded : List ℕ → Hash
padded bytes = take 32 (bytes ++ replicate 32 0)

compute_create_address-hashes_example :
    compute_create_address padded granted (replicate 20 6) 1
    ≡ drop 12 (padded (list_encoding (encoding (replicate 20 6) ++ encoding (minimal_bytes 1))))
compute_create_address-hashes_example =
    compute_create_address-hashes padded granted (replicate 20 6) 1 (λ n h. refl) refl (omega arith)

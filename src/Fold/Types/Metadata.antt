-- ===== src/Fold/Types/Metadata.antt =====
-- `Input::get_metadata` (offchain/src/fold/types.rs) over the ABI encoder of the ethers crate,
-- which is a parameter.
use descartes_v.Base.{ℕ, List, [], ◌∷◌, ◌==◌, length}
use descartes_v.Outcome.{Outcome, ok, assert, ◌>>◌}
use descartes_v.Fold.Types.{Input}

-- `ethers::abi::Token`, as far as the program builds it
pub data Token : Type 0 where
  address : ℕ → Token
  uint : ℕ → Token

module _ (encode : List Token → List ℕ) where
  unfoldable pub get_metadata : {E : Type 0} → Input → Outcome E (List ℕ)
  get_metadata input = do
    let bytes = encode (address input.sender ∷ uint input.timestamp ∷ [])
    assert (length bytes == 64)
    ok bytes

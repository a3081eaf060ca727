-- ===== src/Protocol/Schema.antt =====
-- The records of the identity log in crates/protocol/src/lib.rs, with the source's fields.
use union_core.Prelude.{ℕ, String, List, Option}
use union_core.Prelude.Dict.{Dict}
use union_core.Prelude.Set.{Set}

abbrev pub Bytes : Type 0
Bytes = List ℕ

pub record TrustFounder : Type 0 where
  pub member : String
  pub club : String
  pub public_key : Bytes

pub record TrustGenesis : Type 0 where
  pub federation : String
  pub founders : List TrustFounder
  pub quorum : ℕ

pub record TrustSignature : Type 0 where
  pub public_key : Bytes
  pub signature : Bytes

-- The fields of each action stand in the source's order.
pub data TrustAction : Type 0 where
  confirm_member : String → String → Option String → String → Option String → TrustAction
  revoke_membership : String → String → TrustAction
  bind_device : String → String → TrustAction
  bind_game_profile : String → String → String → TrustAction
  revoke_device : String → String → TrustAction
  propose_succession : String → Dict String String → ℕ → TrustAction
  approve_succession : String → TrustAction
  execute_succession : String → TrustAction
  cancel_succession : String → TrustAction
  authorize_verifier : String → String → String → Set String → TrustAction
  revoke_verifier : String → TrustAction
  register_service : String → String → String → TrustAction
  grant_permission : String → String → String → String → TrustAction
  revoke_permission : String → TrustAction

pub record TrustRecord : Type 0 where
  pub federation : String
  pub genesis : String
  pub sequence : ℕ
  pub previous : String
  pub action : TrustAction
  pub signatures : List TrustSignature

pub record TrustCheckpoint : Type 0 where
  pub genesis : String
  pub sequence : ℕ
  pub head : String

-- A business chain pins the identity genesis and keeps its own service.
pub record TrustBusinessBinding : Type 0 where
  pub genesis : String
  pub namespace : String
  pub audience : String
  pub service : String
  pub club : String

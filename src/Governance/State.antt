-- ===== src/Governance/State.antt =====
-- The state and the actions of crates/state/src/governance.rs, and the domain that it carries
-- (crates/state/src/domain.rs).
use union_core.Prelude.{ℕ, String, Bool, ◌||◌, Option, ◌==◌, text_key, Result, denied, ok_or, List}
use union_core.Prelude.Dict
use union_core.Prelude.Dict.{Dict}
use union_core.Prelude.Set
use union_core.Prelude.Set.{Set}
use union_core.Protocol.Schema.{TrustBusinessBinding}

pub record ConsensusPeer : Type 0 where
  pub peer : String
  pub addresses : List String

pub record Member : Type 0 where
  pub club : String
  pub device : String
  pub additional_devices : Set String
  pub roles : Set String

unfoldable pub owns : Member → String → Bool
owns m device = m.device == device || Set.contains device m.additional_devices

pub record DigestAnchor : Type 0 where
  pub digest : String
  pub actor : String
  pub time_ms : ℕ

abbrev pub max_digest_anchors : ℕ
max_digest_anchors = 10_000

pub record CoreState : Type 0 where
  pub identity : TrustBusinessBinding
  pub digest_anchors : Dict String DigestAnchor
  pub revision : ℕ
  pub admins : Set String
  pub members : Dict String Member
  pub clock_ms : ℕ
  pub consensus_members : Dict ℕ ConsensusPeer
  pub retired_consensus_ids : Set ℕ

-- What an action of the domain is given; `core` is the view of `CoreState`.
pub record CoreView : Type 0 where
  pub admins : Set String
  pub members : Dict String Member

pub record Context : Type 0 where
  pub actor : String
  pub now_ms : ℕ
  pub revision : ℕ
  pub core : CoreView
  pub approved : Bool

abbrev pub view : CoreState → CoreView
view c = record { admins = c.admins; members = c.members }

-- The first member, in the order of the ids, who owns the device.
unfoldable pub member_of : Dict String Member → String → Option (String × Member)
unfolding owns
member_of members device = Dict.find (λ _ m. owns m device) members

-- `Context::member`
unfoldable pub context_member : Context → Result (String × Member)
context_member ctx = ok_or (member_of ctx.core.members ctx.actor) denied

-- `trait Domain`, as far as the state machine calls it.
pub record Domain : Type 1 where
  pub DomainState : Type 0
  pub DomainAction : Type 0
  pub initial : DomainState
  pub transition : DomainState → Context → DomainAction → Result DomainState

pub data EmptyState : Type 0 where
  empty_state : EmptyState

pub data EmptyAction : Type 0 where

-- The domain with no action.
abbrev pub empty_domain : Domain
empty_domain = record {
  DomainState = EmptyState;
  DomainAction = EmptyAction;
  initial = EmptyState.empty_state;
  transition = λ s ctx a. elim a [ ];
}

module _ (D : Domain) where
  open D use {DomainState, DomainAction}

  pub record State : Type 0 where
    pub core : CoreState
    pub domain : DomainState

  pub data Action : Type 0 where
    anchor_digest : String → String → Action
    set_consensus_members : Dict ℕ ConsensusPeer → Action
    set_member_roles : String → Set String → Action
    domain_action : DomainAction → Action

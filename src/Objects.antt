-- ===== src/Objects.antt =====
-- The object tree of source/m2mbase.cpp, source/m2mobject.cpp, source/m2mobjectinstance.cpp,
-- source/m2mresource.cpp, source/m2mresourcebase.cpp and source/m2mresourceinstance.cpp. The
-- members of `M2MBase` are a node; what concerns a node and those above it is a line of nodes.
pub mod Base
pub mod Line
pub mod Tree
pub mod Make
pub mod Levels
pub mod Closure
pub mod After
pub mod Silence
pub mod Delivery
pub mod Tests
use mbed_client.Common.{ℕ, Bool, List, Option}
use mbed_client.Report.{Handler}
use mbed_client.Report.Attributes.{BaseType}
use mbed_client.Tlv.{ResourceType}
use mbed_client.Block.{BlockMessage}

-- `M2MBase::Mode`
pub data Mode : Type 0 where
  static dynamic directory : Mode

-- The union `identifier`, by `identifier_int_type`.
pub data Identifier : Type 0 where
  by_name : List ℕ → Identifier
  by_id : ℕ → Identifier

-- `M2MBase`, with its parameters for nsdl-c. `resource` is the value, `none` for NULL.
pub record Node (F : Type 0) : Type 0 where
  pub identifier : Identifier
  pub base_type : BaseType
  pub data_type : ResourceType
  pub multiple_instance : Bool
  pub max_age : ℕ
  pub path : List ℕ
  pub mode : Mode
  pub access : ℕ
  pub coap_content_type : ℕ
  pub observable : Bool
  pub publish_uri : Bool
  pub resource : Option (List ℕ)
  pub report_handler : Option (Handler F)

-- `M2MResource` with its instances; `delayed_token` is `none` for NULL.
pub record ResourceNode (F : Type 0) : Type 0 where
  pub node : Node F
  pub resource_instances : List (Node F)
  pub block_message : Option BlockMessage
  pub delayed_response : Bool
  pub delayed_token : Option (List ℕ)

pub record InstanceNode (F : Type 0) : Type 0 where
  pub node : Node F
  pub resource_list : List (ResourceNode F)

-- `M2MObject`; whether `_observation_handler` is not NULL.
pub record ObjectNode (F : Type 0) : Type 0 where
  pub node : Node F
  pub instance_list : List (InstanceNode F)
  pub observation_handler : Bool

-- ===== src/Tlv.antt =====
-- The data that the TLV serialiser and deserialiser work on (m2mconstants.h, m2mresourcebase.h,
-- m2mresource.h, m2mobjectinstance.h), reduced to the fields that they read and write.
-- A byte array is a list of numbers; `[]` stands for NULL, whose length field is 0.
pub mod Serializer
pub mod Header
pub mod Deserializer
pub mod Encoding
pub mod Create
pub mod RoundTrip
pub mod Store
pub mod FirstLook
pub mod Plain
pub mod Termination
pub mod Tests
use mbed_client.Common.{ℕ, ◌<◌, ◌≡◌, Bool, true, false, List, length, All}
use mbed_client.Common.Int.{ℤ}

abbrev pub type_resource : ℕ
type_resource = 0xc0

abbrev pub type_multiple_resource : ℕ
type_multiple_resource = 0x80

abbrev pub type_resource_instance : ℕ
type_resource_instance = 0x40

abbrev pub type_object_instance : ℕ
type_object_instance = 0x0

abbrev pub id16 : ℕ
id16 = 0x20

abbrev pub length8 : ℕ
length8 = 0x08

abbrev pub length16 : ℕ
length16 = 0x10

abbrev pub length24 : ℕ
length24 = 0x18

pub data ResourceType : Type 0 where
  string integer float boolean opaque time objlink : ResourceType

pub record ResourceInstance : Type 0 where
  pub instance_id : ℕ
  pub kind : ResourceType
  pub operation : ℕ
  pub value : List ℕ

-- `name_id` is what `name_id()` makes of the name: -1 if it is no number up to 65535.
pub record Resource : Type 0 where
  pub name : List ℕ
  pub name_id : ℤ
  pub supports_multiple_instances : Bool
  pub kind : ResourceType
  pub operation : ℕ
  pub value : List ℕ
  pub resource_instances : List ResourceInstance

pub record ObjectInstance : Type 0 where
  pub instance_id : ℕ
  pub resources : List Resource

-- What the code takes from the C library and from nsdl-c: whether an allocation of so many bytes
-- succeeds, `atoll` (as the 64 bits of its result), `common_write_64_bit`, and whether
-- `create_path` finds room for the path of a new resource or of a new instance of a resource.
pub record Platform : Type 0 where
  pub malloc : ℕ → Bool
  pub atoll : List ℕ → ℕ
  pub write_64_bit : ℕ → List ℕ
  pub create_path : List ℕ → Bool
  pub create_instance_path : List ℕ → ℕ → Bool

-- `M2MBase::Operation`
abbrev pub get_allowed : ℕ
get_allowed = 0x01

abbrev pub put_allowed : ℕ
put_allowed = 0x02

abbrev pub get_put_post_delete_allowed : ℕ
get_put_post_delete_allowed = 0x0f

-- No allocation fails, and `common_write_64_bit` writes eight bytes.
pub record IsAmple (p : Platform) : Type 0 where
  pub room : (n : ℕ) → p.malloc n ≡ true
  pub eight : (n : ℕ) → length (p.write_64_bit n) ≡ 8

-- ===== src/Odid.antt =====
-- The data of opendroneid-core-c that the sources fill in, and what they call of it. The library
-- is a submodule, so its functions, the values of its enumerations and its number type are
-- parameters. A record has the fields that the sources name.
use transmitter_linux.Common.{ℕ, Bool, List}

pub record BasicId : Type 0 where
  pub ua_type : ℕ
  pub id_type : ℕ
  pub uas_id : List ℕ

pub record Auth : Type 0 where
  pub auth_type : ℕ
  pub data_page : ℕ
  pub last_page_index : ℕ
  pub length_field : ℕ
  pub timestamp : ℕ
  pub auth_data : List ℕ

pub record SelfId : Type 0 where
  pub desc_type : ℕ
  pub desc : List ℕ

pub record OperatorId : Type 0 where
  pub operator_id_type : ℕ
  pub operator_id : List ℕ

-- `F` is the type of the floating point numbers.
module _ (F : Type 0) where
  pub record Location : Type 0 where
    pub status : ℕ
    pub direction : F
    pub speed_horizontal : F
    pub speed_vertical : F
    pub latitude : F
    pub longitude : F
    pub altitude_baro : F
    pub altitude_geo : F
    pub height_type : ℕ
    pub height : F
    pub horiz_accuracy : ℕ
    pub vert_accuracy : ℕ
    pub baro_accuracy : ℕ
    pub speed_accuracy : ℕ
    pub ts_accuracy : ℕ
    pub time_stamp : F

  pub record System : Type 0 where
    pub operator_location_type : ℕ
    pub classification_type : ℕ
    pub operator_latitude : F
    pub operator_longitude : F
    pub area_count : ℕ
    pub area_radius : ℕ
    pub area_ceiling : F
    pub area_floor : F
    pub category_eu : ℕ
    pub class_eu : ℕ
    pub operator_altitude_geo : F
    pub timestamp : ℕ

-- `struct ODID_UAS_Data`, with the two Basic IDs and the three Auth pages that the sources use.
pub record UasData (F : Type 0) : Type 0 where
  pub basic_id_zero : BasicId
  pub basic_id_one : BasicId
  pub location : Location F
  pub auth_0 : Auth
  pub auth_1 : Auth
  pub auth_2 : Auth
  pub self_id : SelfId
  pub system : System F
  pub operator_id : OperatorId

-- `ODID_MessagePack_data`, with the messages in the order of their indices.
pub record PackData : Type 0 where
  pub single_message_size : ℕ
  pub msg_pack_size : ℕ
  pub messages : List (List ℕ)

-- An encoder writes into the memory that it is given, and says whether it succeeds.
pub record Odid (F : Type 0) : Type 0 where
  pub add : F → F → F
  pub sub : F → F → F
  pub to_float : F → F  -- a double as a float
  pub is_finite : F → Bool
  -- The literal with these digits, so many of them behind the point; true for a minus sign.
  pub decimal : Bool → ℕ → ℕ → F
  pub create_horizontal_accuracy : F → ℕ
  pub create_vertical_accuracy : F → ℕ
  pub create_speed_accuracy : F → ℕ
  pub create_timestamp_accuracy : F → ℕ
  pub init_uas_data : UasData F  -- what `odid_initUasData` leaves
  pub encode_basic_id : BasicId → List ℕ → Bool × List ℕ
  pub encode_location : Location F → List ℕ → Bool × List ℕ
  pub encode_auth : Auth → List ℕ → Bool × List ℕ
  pub encode_self_id : SelfId → List ℕ → Bool × List ℕ
  pub encode_system : System F → List ℕ → Bool × List ℕ
  pub encode_operator_id : OperatorId → List ℕ → Bool × List ℕ
  pub encode_message_pack : PackData → List ℕ → Bool × List ℕ
  pub pack_size : List ℕ → ℕ  -- the `MsgPackSize` of an encoded pack
  pub uatype_helicopter_or_multirotor : ℕ
  pub idtype_serial_number : ℕ
  pub idtype_specific_session_id : ℕ
  pub auth_uas_id_signature : ℕ
  pub desc_type_text : ℕ
  pub operator_location_type_takeoff : ℕ
  pub classification_type_eu : ℕ
  pub category_eu_open : ℕ
  pub class_eu_class_1 : ℕ
  pub operator_id_kind : ℕ
  pub status_airborne : ℕ
  pub height_ref_over_ground : ℕ

-- ===== src/Transmit/Example.antt =====
-- `fill_example_data` and `fill_example_gps_data` of transmit.c.
use transmitter_linux.Common.{
  ℕ, true, false, List, [], ◌∷◌, ◌++◌, codes, length, min, take, copy_at,
}
use transmitter_linux.Odid.{Odid, UasData, BasicId, Auth, System, Location}

-- `strncpy(dst, src, MINIMUM(sizeof(src), sizeof(dst)))` and the like with `memcpy`, for an array
-- `src` that is initialised with `text`: its NUL is copied too where `dst` has room.
abbrev pub copy_text : List ℕ → List ℕ → List ℕ
copy_text dst text =
    let src = text ++ (0 ∷ []) in copy_at dst 0 (take (min (length src) (length dst)) src)

module _ {F : Type 0} (odid : Odid F) where
  open odid use {
    add, sub, decimal, uatype_helicopter_or_multirotor, idtype_serial_number,
    idtype_specific_session_id, auth_uas_id_signature, desc_type_text,
    operator_location_type_takeoff, classification_type_eu, category_eu_open, class_eu_class_1,
    operator_id_kind, status_airborne, height_ref_over_ground, create_horizontal_accuracy,
    create_vertical_accuracy, create_speed_accuracy, create_timestamp_accuracy,
  }

  fill_basic_id : ℕ → List ℕ → BasicId → BasicId
  fill_basic_id id_type text b = record {
    ua_type = uatype_helicopter_or_multirotor;
    id_type = id_type;
    uas_id = copy_text b.uas_id text;
  }

  -- The fields that are set for each of the three pages.
  fill_auth_page : ℕ → List ℕ → Auth → Auth
  fill_auth_page page text a = record a {
    auth_type = auth_uas_id_signature;
    data_page = page;
    auth_data = copy_text a.auth_data text;
  }

  fill_system : Location F → System F → System F
  fill_system l s = record {
    operator_location_type = operator_location_type_takeoff;
    classification_type = classification_type_eu;
    operator_latitude = add l.latitude (decimal false 1 3);
    operator_longitude = sub l.longitude (decimal false 1 3);
    area_count = 1;
    area_radius = 0;
    area_ceiling = decimal false 0 0;
    area_floor = decimal false 0 0;
    category_eu = category_eu_open;
    class_eu = class_eu_class_1;
    operator_altitude_geo = decimal false 205 1;
    timestamp = 28056789;
  }

  unfoldable pub fill_example_data : UasData F → UasData F
  unfolding fill_basic_id fill_auth_page fill_system
  fill_example_data u = record u {
    basic_id_zero =
        fill_basic_id idtype_serial_number (codes "112624150A90E3AE1EC0") u.basic_id_zero;
    basic_id_one =
        fill_basic_id idtype_specific_session_id (codes "FD3454B778E565C24B70") u.basic_id_one;
    auth_0 = record (fill_auth_page 0 (codes "12345678901234567") u.auth_0) {
      last_page_index = 2;
      length_field = 63;
      timestamp = 28000000;
    };
    auth_1 = fill_auth_page 1 (codes "12345678901234567890123") u.auth_1;
    auth_2 = fill_auth_page 2 (codes "12345678901234567890123") u.auth_2;
    self_id = record {
      desc_type = desc_type_text;
      desc = copy_text u.self_id.desc (codes "Drone ID test flight---");
    };
    system = fill_system u.location u.system;
    operator_id = record {
      operator_id_type = operator_id_kind;
      operator_id = copy_text u.operator_id.operator_id (codes "FIN87astrdge12k8");
    };
  }

  example_location : Location F
  example_location = record {
    status = status_airborne;
    direction = decimal false 361 0;
    speed_horizontal = decimal false 0 1;
    speed_vertical = decimal false 35 2;
    latitude = decimal false 514791 4;
    longitude = decimal true 13 4;
    altitude_baro = decimal false 100 0;
    altitude_geo = decimal false 110 0;
    height_type = height_ref_over_ground;
    height = decimal false 80 0;
    horiz_accuracy = create_horizontal_accuracy (decimal false 55 1);
    vert_accuracy = create_vertical_accuracy (decimal false 95 1);
    baro_accuracy = create_vertical_accuracy (decimal false 5 1);
    speed_accuracy = create_speed_accuracy (decimal false 5 1);
    ts_accuracy = create_timestamp_accuracy (decimal false 1 1);
    time_stamp = decimal false 36052 2;
  }

  unfoldable pub fill_example_gps_data : UasData F → UasData F
  unfolding example_location
  fill_example_gps_data u = record u { location = example_location }

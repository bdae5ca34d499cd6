-- ===== src/Gps/Defs.antt =====
-- `init_gps`, `process_gps_data` and `gps_loop`. gpsd's library is a submodule: what it answers
-- comes in as a parameter or as the list of the loop's turns. Its numbers are doubles; all fields of
-- the location but latitude and longitude are floats.
use Prim.Native.Nat.{bit_or}
use transmitter_linux.Common.{
  ℕ, ◌+◌, Bool, Option, none, some, List, [], ◌∷◌, ltb, leb, if◌then◌else◌,
}
use transmitter_linux.Machine.{M, ◌>>=◌, pure, emit, gps_streamed}
use transmitter_linux.Odid.{Odid, UasData, Location}

-- `struct gps_fix_t`, with the fields that the source reads.
pub record Fix (F : Type 0) : Type 0 where
  pub mode : ℕ
  pub latitude : F
  pub longitude : F
  pub track : F
  pub alt_msl : F
  pub altitude : F
  pub speed : F
  pub climb : F
  pub eph : F
  pub epy : F
  pub eps : F

-- The constants of gps.h, and what the library answers when the program starts.
pub record Gpsd : Type 0 where
  pub mode_2d : ℕ
  pub mode_3d : ℕ
  pub watch_enable : ℕ
  pub watch_device : ℕ
  pub source_device : Option (List ℕ)  -- `source->device` after `gpsd_source_spec`
  pub opens : Bool  -- `gps_open` returns 0

watch_flags : Gpsd → Option (List ℕ) → ℕ
watch_flags g none = g.watch_enable
watch_flags g (some device) = bit_or g.watch_enable g.watch_device

unfoldable pub init_gps : Gpsd → M ℕ
unfolding watch_flags
init_gps g =
    if g.opens
    then (emit (gps_streamed (watch_flags g g.source_device) g.source_device) >>= λ _. pure 0)
    else pure 1

abbrev pub max_gps_wait_retries : ℕ
max_gps_wait_retries = 60

abbrev pub max_gps_read_retries : ℕ
max_gps_read_retries = 5

-- What one turn of the loop meets: `kill_program` set by the signal handler, a `gps_waiting`
-- that returns false, a `gps_read` that returns -1, or a report that is read.
pub data Turn (F : Type 0) : Type 0 where
  killed : Turn F
  not_ready : Turn F
  read_failed : Turn F
  report : Fix F → Turn F

-- The loop's variables: `retries`, `read_retries` and the data that the threads share.
pub record Loop (F : Type 0) : Type 0 where
  pub retries : ℕ
  pub read_retries : ℕ
  pub uas_data : UasData F

-- How the loop ends: by `pthread_exit` with a status, `kill_program` being set by now, or not
-- within the turns given.
pub data LoopEnd (F : Type 0) : Type 0 where
  finished : ℕ → UasData F → LoopEnd F
  running : Loop F → LoopEnd F

module _ {F : Type 0} (odid : Odid F) (gpsd : Gpsd) where
  open odid use {
    sub, is_finite, to_float, create_horizontal_accuracy, create_vertical_accuracy,
    create_speed_accuracy,
  }

  -- `if (isfinite(x)) { … }`
  unfoldable pub when_finite : F → (Location F → Location F) → Location F → Location F
  when_finite x f l = if is_finite x then f l else l

  -- The body of `if (mode >= MODE_2D)`.
  unfoldable pub process_2d : Fix F → Location F → Location F
  process_2d fix l =
      when_finite fix.track (λ m. record m { direction = to_float fix.track })
        (record l { latitude = fix.latitude; longitude = fix.longitude })

  -- The altitude of a 3D fix, and the height above the operator's altitude.
  abbrev pub set_altitude : F → F → Location F → Location F
  set_altitude operator altitude l = record l {
    altitude_geo = to_float altitude;
    altitude_baro = to_float altitude;
    height = to_float (sub altitude operator);
  }

  unfoldable pub choose_altitude : F → Fix F → Location F → Location F
  choose_altitude operator fix l =
      if is_finite fix.alt_msl
      then set_altitude operator fix.alt_msl l
      else when_finite fix.altitude (set_altitude operator fix.altitude) l

  -- The body of `if (mode >= MODE_3D)`, with the operator's altitude.
  unfoldable pub process_3d : F → Fix F → Location F → Location F
  process_3d operator fix l =
      let a = choose_altitude operator fix l in
      let b = when_finite fix.speed (λ m. record m { speed_horizontal = to_float fix.speed }) a in
      let c = when_finite fix.climb (λ m. record m { speed_vertical = to_float fix.climb }) b in
      let d =
        when_finite fix.eph (λ m. record m { horiz_accuracy = create_horizontal_accuracy fix.eph })
          c in
      let e =
        when_finite fix.epy (λ m. record m { vert_accuracy = create_vertical_accuracy fix.epy })
          d in
      when_finite fix.eps (λ m. record m { speed_accuracy = create_speed_accuracy fix.eps }) e

  unfoldable pub process_gps_data : Fix F → UasData F → UasData F
  process_gps_data fix u =
      let flat = if leb gpsd.mode_2d fix.mode then process_2d fix u.location else u.location in
      let solid =
        if leb gpsd.mode_3d fix.mode
        then process_3d u.system.operator_altitude_geo fix flat
        else flat in
      record u { location = solid }

  unfoldable pub gps_loop : Loop F → List (Turn F) → LoopEnd F
  gps_loop s [] = running s
  gps_loop s (killed ∷ turns) = finished 0 s.uas_data
  gps_loop s (not_ready ∷ turns) =
      let rest = gps_loop (record s { retries = s.retries + 1 }) turns in
      if ltb max_gps_wait_retries s.retries then finished 1 s.uas_data else rest
  gps_loop s (read_failed ∷ turns) =
      let rest = gps_loop (record s { retries = 0; read_retries = s.read_retries + 1 }) turns in
      if ltb max_gps_read_retries s.read_retries then finished 1 s.uas_data else rest
  gps_loop s (report fix ∷ turns) =
      gps_loop
        (record { retries = 0; read_retries = 0; uas_data = process_gps_data fix s.uas_data }) turns

-- Where the thread starts.
abbrev pub loop_start : {F : Type 0} → UasData F → Loop F
loop_start u = record { retries = 0; read_retries = 0; uas_data = u }

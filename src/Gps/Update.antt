-- ===== src/Gps/Update.antt =====
-- What a GPS report changes.
use transmitter_linux.Common.{
  ◌<◌, ◌≤◌, ◌≡◌, ◌⊎◌, Bool, true, false, leb, if◌then◌else◌, Bool-cases, inl, inr, arith,
}
use transmitter_linux.Odid.{Odid, UasData, Location}
use transmitter_linux.Gps.Defs.{
  Fix, Gpsd, when_finite, process_2d, process_3d, choose_altitude, set_altitude, process_gps_data,
}

module _ {F : Type 0} (odid : Odid F) (gpsd : Gpsd) where
  -- A report without a 2D fix changes nothing of the data, where the mode of a 3D fix is at least
  -- that of a 2D fix.
  process_gps_data_no_fix :
      (fix : Fix F) (u : UasData F)
      → gpsd.mode_2d ≤ gpsd.mode_3d
      → fix.mode < gpsd.mode_2d
      → process_gps_data odid gpsd fix u ≡ u
  unfolding process_gps_data
  process_gps_data_no_fix fix u order low = ground arith

  -- The speeds and the altitude that messages state are finite.
  pub record IsFiniteLocation (l : Location F) : Type 0 where
    pub direction : odid.is_finite l.direction ≡ true
    pub speed_horizontal : odid.is_finite l.speed_horizontal ≡ true
    pub speed_vertical : odid.is_finite l.speed_vertical ≡ true
    pub altitude_baro : odid.is_finite l.altitude_baro ≡ true
    pub altitude_geo : odid.is_finite l.altitude_geo ≡ true

  -- The numbers of a report that become floats are in the range of a float where they are finite.
  pub record IsInRange (fix : Fix F) : Type 0 where
    pub track : odid.is_finite fix.track ≡ true → odid.is_finite (odid.to_float fix.track) ≡ true
    pub alt_msl :
        odid.is_finite fix.alt_msl ≡ true → odid.is_finite (odid.to_float fix.alt_msl) ≡ true
    pub altitude :
        odid.is_finite fix.altitude ≡ true → odid.is_finite (odid.to_float fix.altitude) ≡ true
    pub speed : odid.is_finite fix.speed ≡ true → odid.is_finite (odid.to_float fix.speed) ≡ true
    pub climb : odid.is_finite fix.climb ≡ true → odid.is_finite (odid.to_float fix.climb) ≡ true

  when_finite-IsFiniteLocation :
      (x : F) (f : Location F → Location F) (l : Location F)
      → (odid.is_finite x ≡ true → IsFiniteLocation (f l))
      → IsFiniteLocation l
      → IsFiniteLocation (when_finite odid gpsd x f l)
  unfolding when_finite
  when_finite-IsFiniteLocation x f l keep v = elim (Bool-cases (odid.is_finite x)) [
    | inl e ↦ rw e (keep e)
    | inr e ↦ rw e v
  ]

  process_2d-IsFiniteLocation :
      (fix : Fix F) (l : Location F)
      → IsInRange fix
      → IsFiniteLocation l
      → IsFiniteLocation (process_2d odid gpsd fix l)
  unfolding process_2d
  process_2d-IsFiniteLocation fix l range v =
      when_finite-IsFiniteLocation fix.track (λ m. record m { direction = odid.to_float fix.track })
        (record l { latitude = fix.latitude; longitude = fix.longitude })
        (λ e. record {
          direction = range.track e;
          speed_horizontal = v.speed_horizontal;
          speed_vertical = v.speed_vertical;
          altitude_baro = v.altitude_baro;
          altitude_geo = v.altitude_geo;
        })
        (record {
          direction = v.direction;
          speed_horizontal = v.speed_horizontal;
          speed_vertical = v.speed_vertical;
          altitude_baro = v.altitude_baro;
          altitude_geo = v.altitude_geo;
        })

  choose_altitude-IsFiniteLocation :
      (operator : F) (fix : Fix F) (l : Location F)
      → IsInRange fix
      → IsFiniteLocation l
      → IsFiniteLocation (choose_altitude odid gpsd operator fix l)
  unfolding choose_altitude
  choose_altitude-IsFiniteLocation operator fix l range v =
      elim (Bool-cases (odid.is_finite fix.alt_msl)) [
        | inl e ↦ rw e (record {
          direction = v.direction;
          speed_horizontal = v.speed_horizontal;
          speed_vertical = v.speed_vertical;
          altitude_baro = range.alt_msl e;
          altitude_geo = range.alt_msl e;
        })
        | inr e ↦ rw e (
            when_finite-IsFiniteLocation fix.altitude (set_altitude odid gpsd operator fix.altitude)
              l
              (λ f. record {
                direction = v.direction;
                speed_horizontal = v.speed_horizontal;
                speed_vertical = v.speed_vertical;
                altitude_baro = range.altitude f;
                altitude_geo = range.altitude f;
              })
              v)
      ]

  process_3d-IsFiniteLocation :
      (operator : F) (fix : Fix F) (l : Location F)
      → IsInRange fix
      → IsFiniteLocation l
      → IsFiniteLocation (process_3d odid gpsd operator fix l)
  unfolding process_3d
  process_3d-IsFiniteLocation operator fix l range v0 =
      let a = choose_altitude odid gpsd operator fix l in
      let v = choose_altitude-IsFiniteLocation operator fix l range v0 in
      let b =
        when_finite odid gpsd fix.speed
          (λ m. record m { speed_horizontal = odid.to_float fix.speed }) a in
      let w =
        when_finite-IsFiniteLocation fix.speed
          (λ m. record m { speed_horizontal = odid.to_float fix.speed }) a
          (λ e. record {
            direction = v.direction;
            speed_horizontal = range.speed e;
            speed_vertical = v.speed_vertical;
            altitude_baro = v.altitude_baro;
            altitude_geo = v.altitude_geo;
          })
          v in
      let c =
        when_finite odid gpsd fix.climb (λ m. record m { speed_vertical = odid.to_float fix.climb })
          b in
      let x =
        when_finite-IsFiniteLocation fix.climb
          (λ m. record m { speed_vertical = odid.to_float fix.climb }) b
          (λ e. record {
            direction = w.direction;
            speed_horizontal = w.speed_horizontal;
            speed_vertical = range.climb e;
            altitude_baro = w.altitude_baro;
            altitude_geo = w.altitude_geo;
          })
          w in
      let d =
        when_finite odid gpsd fix.eph
          (λ m. record m { horiz_accuracy = odid.create_horizontal_accuracy fix.eph }) c in
      let y =
        when_finite-IsFiniteLocation fix.eph
          (λ m. record m { horiz_accuracy = odid.create_horizontal_accuracy fix.eph }) c
          (λ e. record {
            direction = x.direction;
            speed_horizontal = x.speed_horizontal;
            speed_vertical = x.speed_vertical;
            altitude_baro = x.altitude_baro;
            altitude_geo = x.altitude_geo;
          })
          x in
      let z =
        when_finite-IsFiniteLocation fix.epy
          (λ m. record m { vert_accuracy = odid.create_vertical_accuracy fix.epy }) d
          (λ e. record {
            direction = y.direction;
            speed_horizontal = y.speed_horizontal;
            speed_vertical = y.speed_vertical;
            altitude_baro = y.altitude_baro;
            altitude_geo = y.altitude_geo;
          })
          y in
      when_finite-IsFiniteLocation fix.eps
        (λ m. record m { speed_accuracy = odid.create_speed_accuracy fix.eps })
        (when_finite odid gpsd fix.epy
          (λ m. record m { vert_accuracy = odid.create_vertical_accuracy fix.epy }) d)
        (λ e. record {
          direction = z.direction;
          speed_horizontal = z.speed_horizontal;
          speed_vertical = z.speed_vertical;
          altitude_baro = z.altitude_baro;
          altitude_geo = z.altitude_geo;
        })
        z

  if-IsFiniteLocation :
      (b : Bool) {l m : Location F}
      → IsFiniteLocation l
      → IsFiniteLocation m
      → IsFiniteLocation (if b then l else m)
  if-IsFiniteLocation true p q = p
  if-IsFiniteLocation false p q = q

  -- Where the direction, the two speeds and the two altitudes of the location are finite, every
  -- report whose finite numbers are in the range of a float keeps them finite.
  process_gps_data-IsFiniteLocation :
      (fix : Fix F) (u : UasData F)
      → IsInRange fix
      → IsFiniteLocation u.location
      → IsFiniteLocation (process_gps_data odid gpsd fix u).location
  unfolding process_gps_data
  process_gps_data-IsFiniteLocation fix u range v =
      let l = u.location in
      let flat =
        if-IsFiniteLocation (leb gpsd.mode_2d fix.mode) (process_2d-IsFiniteLocation fix l range v)
          v in
      if-IsFiniteLocation (leb gpsd.mode_3d fix.mode)
        (process_3d-IsFiniteLocation u.system.operator_altitude_geo fix
          (if leb gpsd.mode_2d fix.mode then process_2d odid gpsd fix l else l) range flat)
        flat

  -- Where the mode of a 3D fix is at least that of a 2D fix: every report whose finite
  -- numbers are in the range of a float, also one with numbers that are not finite, keeps the
  -- direction, the two speeds and the two altitudes of a location finite, which are floats, and a
  -- report without a 2D fix changes nothing.
  pub process_gps_data_lem :
      (fix : Fix F) (u : UasData F)
      → IsInRange fix
      → IsFiniteLocation u.location
      → gpsd.mode_2d ≤ gpsd.mode_3d
      → IsFiniteLocation (process_gps_data odid gpsd fix u).location
        × ((gpsd.mode_2d ≤ fix.mode) ⊎ (process_gps_data odid gpsd fix u ≡ u))
  process_gps_data_lem fix u range finite order = (
    process_gps_data-IsFiniteLocation fix u range finite,
    elim (Bool-cases (leb gpsd.mode_2d fix.mode)) [
      | inl e ↦ inl (ground (arith, e))
      | inr e ↦ inr (process_gps_data_no_fix fix u order (ground (arith, e)))
    ],
  )

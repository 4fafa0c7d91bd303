-- ===== src/Pack/Catalog/Elec.antt =====
-- The closed-form models of signal integrity of python/feldspar/pack/models.py, each by its claim kind
-- and, where it has two sides, its sense.
use feldspar.Prelude.{String, Bool, false, [], ◌∷◌}
use feldspar.Pack.Catalog.Defs.{Model, closed_form_model, sided}

abbrev pub microstrip_impedance : String → Bool → Model
microstrip_impedance claim_kind upper =
    closed_form_model (sided "elec_si_microstrip_z0_" upper) claim_kind upper
      "elec.si.microstrip.z0"
      ("elec.si.microstrip.w" ∷ "elec.si.microstrip.h" ∷ "elec.si.microstrip.t"
        ∷ "elec.si.microstrip.er" ∷ [])
      ("tem" ∷ "surface_microstrip" ∷ "hammerstad_jensen" ∷ [])
      ("tem" ∷ "surface_microstrip" ∷ "hammerstad_jensen" ∷ [])

abbrev pub stripline_impedance : String → Bool → Model
stripline_impedance claim_kind upper =
    closed_form_model (sided "elec_si_stripline_z0_" upper) claim_kind upper "elec.si.stripline.z0"
      ("elec.si.stripline.w" ∷ "elec.si.stripline.b" ∷ "elec.si.stripline.er" ∷ [])
      ("tem" ∷ "symmetric_stripline" ∷ "centred_track" ∷ "zero_thickness" ∷ [])
      ("tem" ∷ "symmetric_stripline" ∷ "centred_track" ∷ "zero_thickness" ∷ [])

abbrev pub series_termination : String → Model
series_termination claim_kind =
    closed_form_model "elec_si_series_termination_rs" claim_kind false
      "elec.si.series_termination.rs"
      ("elec.si.series_termination.z0" ∷ "elec.si.series_termination.ro" ∷ [])
      ("source_series" ∷ "matched_line" ∷ [])
      ("source_series" ∷ "matched_line" ∷ "johnson_graham_ch4" ∷ [])

abbrev pub thevenin_termination_r1 : String → Model
thevenin_termination_r1 claim_kind =
    closed_form_model "elec_si_thevenin_termination_r1" claim_kind false
      "elec.si.thevenin_termination.r1"
      ("elec.si.thevenin_termination.z0" ∷ "elec.si.thevenin_termination.vcc"
        ∷ "elec.si.thevenin_termination.vbias" ∷ [])
      ("thevenin_parallel" ∷ "matched_line" ∷ [])
      ("thevenin_parallel" ∷ "matched_line" ∷ "johnson_graham_ch4" ∷ [])

abbrev pub thevenin_termination_r2 : String → Model
thevenin_termination_r2 claim_kind =
    closed_form_model "elec_si_thevenin_termination_r2" claim_kind false
      "elec.si.thevenin_termination.r2"
      ("elec.si.thevenin_termination.z0" ∷ "elec.si.thevenin_termination.vcc"
        ∷ "elec.si.thevenin_termination.vbias" ∷ [])
      ("thevenin_parallel" ∷ "matched_line" ∷ [])
      ("thevenin_parallel" ∷ "matched_line" ∷ "johnson_graham_ch4" ∷ [])

abbrev pub ac_shunt_resistor : String → Model
ac_shunt_resistor claim_kind =
    closed_form_model "elec_si_ac_shunt_sizing_r" claim_kind false "elec.si.ac_shunt.r"
      ("elec.si.ac_shunt.z0" ∷ []) ("ac_shunt" ∷ []) ("ac_shunt" ∷ "johnson_graham_ch4" ∷ [])

abbrev pub ac_shunt_capacitor : String → Model
ac_shunt_capacitor claim_kind =
    closed_form_model "elec_si_ac_shunt_sizing_c" claim_kind false "elec.si.ac_shunt.c"
      ("elec.si.ac_shunt.rise_time" ∷ "elec.si.ac_shunt.r" ∷ [])
      ("ac_shunt" ∷ "quarter_rise_time_heuristic" ∷ [])
      ("ac_shunt" ∷ "quarter_rise_time_heuristic" ∷ "johnson_graham_ch4" ∷ [])

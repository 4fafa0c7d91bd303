-- ===== src/Pack/Catalog.antt =====
-- The models that `register` of python/feldspar/pack/__init__.py adds to the other program's registry,
-- which is a parameter. `Defs` has what a model declares, `Mech` and `Elec` the models on an engine
-- direction.
pub mod Defs
pub mod Mech
pub mod Elec
use feldspar.Prelude.{String, Bool, true, false, List, [], ◌∷◌, none, Option}
use feldspar.Pack.Catalog.Defs.{Model, sided, payload_tier_cost}
use feldspar.Pack.Catalog.Mech.{
  bearing_rating_life, bolt_load_factor, drive_accel_torque, euler_buckling_load,
  fatigue_gerber_factor_of_safety, fatigue_goodman_factor_of_safety, fatigue_sn_cycles_to_failure,
  fea_static_deflection, fea_static_stress, leadscrew_torque_raise, member_axial_capacity,
  member_flexural_capacity, plate_max_deflection, plate_max_stress, shaft_critical_speed,
  thermal_transient_duty_cycle_peak_temperature, thermal_transient_step_temperature,
  weld_utilization,
}
use feldspar.Pack.Catalog.Elec.{
  ac_shunt_capacitor, ac_shunt_resistor, microstrip_impedance, series_termination,
  stripline_impedance, thevenin_termination_r1, thevenin_termination_r2,
}

abbrev pub static_deflection_from_geometry : String → Model
static_deflection_from_geometry claim_kind = record {
  name = "fea_static_deflection_from_geometry";
  claim_kind = claim_kind;
  upper = true;
  inputs = "mech.material.youngs_modulus" ∷ "mech.material.poisson" ∷ "mech.load.tip_force" ∷ [];
  domain = "linear_elastic" ∷ "small_deflection" ∷ "discretized" ∷ [];
  required_regimes = [];
  payload_kinds = ("mech.geom.cantilever.parametric", "geometry.parametric") ∷ [];
  direction = none;
  cost = payload_tier_cost;
}

abbrev pub fatigue_miner_damage : String → Model
fatigue_miner_damage claim_kind = record {
  name = "mech_fatigue_miner_damage";
  claim_kind = claim_kind;
  upper = true;
  inputs = "mech.fatigue.miner.sut" ∷ "mech.fatigue.miner.se" ∷ "mech.fatigue.miner.f" ∷ [];
  domain = "steel" ∷ "hcf" ∷ [];
  required_regimes = [];
  payload_kinds = ("mech.fatigue.miner.spectrum", "spectrum") ∷ [];
  direction = none;
  cost = payload_tier_cost;
}

-- A closed form that the model evaluates itself.
abbrev plain : String → String → Bool → List String → List String → Model
plain name claim_kind upper inputs domain = record {
  name = name;
  claim_kind = claim_kind;
  upper = upper;
  inputs = inputs;
  domain = domain;
  required_regimes = [];
  payload_kinds = [];
  direction = none;
  cost = 1;
}

abbrev pub mech_stiffness : String → Model
mech_stiffness claim_kind =
    plain "mech_stiffness" claim_kind false ("e_modulus" ∷ "i_area" ∷ "length" ∷ [])
      ("linear_elastic" ∷ "small_deflection" ∷ "closed_form" ∷ [])

abbrev pub elec_rail : String → Bool → Model
elec_rail claim_kind upper =
    plain (sided "elec_rail_" upper) claim_kind upper ("vin" ∷ "r1" ∷ "r2" ∷ "rload" ∷ [])
      ("linear" ∷ "small_signal" ∷ "closed_form" ∷ [])

-- A query on a solved flow network.
abbrev on_flownet : String → String → Bool → List String → Model
on_flownet name claim_kind upper domain = record {
  name = name;
  claim_kind = claim_kind;
  upper = upper;
  inputs = [];
  domain = domain;
  required_regimes = [];
  payload_kinds = ("fluids.network.flownet", "flownet") ∷ [];
  direction = none;
  cost = payload_tier_cost;
}

abbrev pub fluids_mdot : String → Bool → Model
fluids_mdot claim_kind upper =
    on_flownet (sided "fluids_mdot_" upper) claim_kind upper
      ("incompressible" ∷ "network" ∷ "hardy_cross" ∷ [])

abbrev pub fluids_flow_imbalance : String → Model
fluids_flow_imbalance claim_kind =
    on_flownet "fluids_flow_imbalance" claim_kind true
      ("incompressible" ∷ "network" ∷ "hardy_cross" ∷ [])

abbrev pub fluids_dp : String → Model
fluids_dp claim_kind =
    on_flownet "fluids_dp_multipath" claim_kind true
      ("incompressible" ∷ "network" ∷ "hardy_cross" ∷ "multi_path" ∷ [])

-- The models in the order of their registration, by their default claim kinds.
abbrev pub registered : List Model
registered =
    fea_static_stress "mech.static_stress" []
    ∷ fea_static_deflection "mech.static_deflection" []
    ∷ static_deflection_from_geometry "mech.static_deflection"
    ∷ mech_stiffness "mech.stiffness"
    ∷ elec_rail "elec.rail.lo" false
    ∷ elec_rail "elec.rail.hi" true
    ∷ member_flexural_capacity "mech.member.flexural_capacity"
    ∷ member_axial_capacity "mech.member.axial_capacity"
    ∷ euler_buckling_load "mech.member.euler_buckling_load"
    ∷ bolt_load_factor "mech.joint.bolt_load_factor"
    ∷ weld_utilization "mech.weld.utilization"
    ∷ bearing_rating_life "mech.bearing.rating_life_hours"
    ∷ fatigue_goodman_factor_of_safety "mech.fatigue.factor_of_safety"
    ∷ leadscrew_torque_raise "mech.drive.leadscrew_torque_raise"
    ∷ fatigue_sn_cycles_to_failure "mech.fatigue.cycles_to_failure"
    ∷ fatigue_miner_damage "mech.fatigue.damage"
    ∷ fatigue_gerber_factor_of_safety "mech.fatigue.gerber_factor_of_safety"
    ∷ thermal_transient_step_temperature "thermo.junction_temperature_transient"
    ∷ thermal_transient_duty_cycle_peak_temperature "thermo.junction_temperature_duty_cycle"
    ∷ shaft_critical_speed "mech.critical_speed"
    ∷ drive_accel_torque "mech.drive.accel_torque"
    ∷ plate_max_stress "mech.plate.max_stress"
    ∷ plate_max_deflection "mech.plate.max_deflection"
    ∷ microstrip_impedance "elec.si.microstrip_z0.lo" false
    ∷ microstrip_impedance "elec.si.microstrip_z0.hi" true
    ∷ stripline_impedance "elec.si.stripline_z0.lo" false
    ∷ stripline_impedance "elec.si.stripline_z0.hi" true
    ∷ series_termination "elec.si.series_termination.rs"
    ∷ thevenin_termination_r1 "elec.si.thevenin_termination.r1"
    ∷ thevenin_termination_r2 "elec.si.thevenin_termination.r2"
    ∷ ac_shunt_resistor "elec.si.ac_shunt.r"
    ∷ ac_shunt_capacitor "elec.si.ac_shunt.c"
    ∷ fluids_mdot "fluids.mdot.lo" false
    ∷ fluids_mdot "fluids.mdot.hi" true
    ∷ fluids_flow_imbalance "fluids.flow_imbalance"
    ∷ fluids_dp "fluids.dp"
    ∷ []

-- `register`, for the registry of the other program.
unfoldable pub register_models : {R : Type 0} → (R → Model → R) → List Model → R → R
register_models add [] registry = registry
register_models add (m ∷ models) registry = register_models add models (add registry m)

unfoldable pub register_pack : {R : Type 0} → (R → Model → R) → R → R
unfolding register_models
register_pack add registry = register_models add registered registry

-- ===== src/Pack/Catalog/Mech.antt =====
-- The closed-form models of mechanics and heat of python/feldspar/pack/models.py, each by its claim
-- kind.
use feldspar.Prelude.{String, true, false, List, [], ◌∷◌}
use feldspar.Pack.Catalog.Defs.{Model, fea_model, closed_form_model}

abbrev pub fea_static_stress : String → List String → Model
fea_static_stress claim_kind required_regimes =
    fea_model "fea_static_stress" claim_kind true "mech.stress.von_mises"
      ("mech.load.internal_pressure" ∷ "mech.geom.cylinder.inner_radius"
        ∷ "mech.geom.cylinder.outer_radius" ∷ "mech.material.youngs_modulus"
        ∷ "mech.material.poisson" ∷ [])
      required_regimes ("linear_elastic" ∷ "small_deflection" ∷ "discretized" ∷ [])

abbrev pub fea_static_deflection : String → List String → Model
fea_static_deflection claim_kind required_regimes =
    fea_model "fea_static_deflection" claim_kind true "mech.deflection.tip"
      ("mech.geom.cantilever.length" ∷ "mech.geom.cantilever.width" ∷ "mech.geom.cantilever.height"
        ∷ "mech.material.youngs_modulus" ∷ "mech.material.poisson" ∷ "mech.load.tip_force" ∷ [])
      required_regimes ("linear_elastic" ∷ "small_deflection" ∷ "discretized" ∷ [])

abbrev pub member_flexural_capacity : String → Model
member_flexural_capacity claim_kind =
    closed_form_model "mech_member_flexural_capacity_f2" claim_kind false
      "mech.member.flexure.capacity" ("mech.member.flexure.fy" ∷ "mech.member.flexure.zx" ∷ [])
      ("compact" ∷ "braced" ∷ "steel" ∷ []) ("compact" ∷ "braced" ∷ "steel" ∷ "aisc_360_16_f2" ∷ [])

abbrev pub member_axial_capacity : String → Model
member_axial_capacity claim_kind =
    closed_form_model "mech_member_axial_capacity_e3" claim_kind false "mech.member.axial.capacity"
      ("mech.member.axial.fy" ∷ "mech.member.axial.ag" ∷ "mech.member.axial.e"
        ∷ "mech.member.axial.kl_over_r" ∷ [])
      ("steel" ∷ "no_slender_elements" ∷ [])
      ("steel" ∷ "no_slender_elements" ∷ "aisc_360_16_e3" ∷ [])

abbrev pub euler_buckling_load : String → Model
euler_buckling_load claim_kind =
    closed_form_model "mech_member_euler_buckling_load" claim_kind false "mech.member.euler.pcr"
      ("mech.member.euler.e" ∷ "mech.member.euler.i" ∷ "mech.member.euler.k"
        ∷ "mech.member.euler.length" ∷ [])
      ("elastic" ∷ "prismatic" ∷ "no_slender_elements" ∷ [])
      ("elastic" ∷ "prismatic" ∷ "no_slender_elements" ∷ "timoshenko_ch2" ∷ [])

abbrev pub bolt_load_factor : String → Model
bolt_load_factor claim_kind =
    closed_form_model "mech_joint_bolt_load_factor_vdi2230" claim_kind false
      "mech.joint.bolt.load_factor"
      ("mech.joint.bolt.cb" ∷ "mech.joint.bolt.cp" ∷ "mech.joint.bolt.fv" ∷ "mech.joint.bolt.fa"
        ∷ [])
      ("elastic" ∷ "no_gasket_creep" ∷ "concentric_load" ∷ "friction_grip_out_of_scope" ∷ [])
      ("elastic" ∷ "no_gasket_creep" ∷ "concentric_load" ∷ "vdi_2230_blatt1" ∷ [])

abbrev pub weld_utilization : String → Model
weld_utilization claim_kind =
    closed_form_model "mech_weld_group_utilization" claim_kind true
      "mech.weld.group.utilization_ratio"
      ("mech.weld.group.inplane_line_force" ∷ "mech.weld.group.bending_line_force"
        ∷ "mech.weld.group.leg_size" ∷ "mech.weld.group.allowable_stress" ∷ [])
      ("elastic" ∷ "fillet" ∷ "static" ∷ [])
      ("elastic" ∷ "fillet" ∷ "static" ∷ "aws_d1.1_j2.4" ∷ [])

abbrev pub bearing_rating_life : String → Model
bearing_rating_life claim_kind =
    closed_form_model "mech_bearing_rating_life_l10h" claim_kind false "mech.bearing.l10h"
      ("mech.bearing.l10" ∷ "mech.bearing.speed_rpm" ∷ []) ("iso_281" ∷ "constant_speed" ∷ [])
      ("iso_281" ∷ "constant_speed" ∷ "basic_rating" ∷ "no_a_iso" ∷ [])

abbrev pub fatigue_goodman_factor_of_safety : String → Model
fatigue_goodman_factor_of_safety claim_kind =
    closed_form_model "mech_fatigue_goodman_factor_of_safety" claim_kind false
      "mech.fatigue.goodman.factor_of_safety"
      ("mech.fatigue.goodman.se" ∷ "mech.fatigue.goodman.sut" ∷ "mech.fatigue.goodman.sigma_a"
        ∷ "mech.fatigue.goodman.sigma_m" ∷ [])
      ("steel" ∷ "hcf" ∷ "fatigue_governs" ∷ [])
      ("steel" ∷ "hcf" ∷ "fatigue_governs" ∷ "kf_pre_applied" ∷ [])

abbrev pub fatigue_gerber_factor_of_safety : String → Model
fatigue_gerber_factor_of_safety claim_kind =
    closed_form_model "mech_fatigue_gerber_factor_of_safety" claim_kind false
      "mech.fatigue.gerber.factor_of_safety"
      ("mech.fatigue.gerber.se" ∷ "mech.fatigue.gerber.sut" ∷ "mech.fatigue.gerber.sigma_a"
        ∷ "mech.fatigue.gerber.sigma_m" ∷ [])
      ("steel" ∷ "hcf" ∷ "fatigue_governs" ∷ [])
      ("steel" ∷ "hcf" ∷ "fatigue_governs" ∷ "kf_pre_applied" ∷ "gerber" ∷ [])

abbrev pub fatigue_sn_cycles_to_failure : String → Model
fatigue_sn_cycles_to_failure claim_kind =
    closed_form_model "mech_fatigue_sn_cycles_to_failure" claim_kind false
      "mech.fatigue.sn.cycles_to_failure"
      ("mech.fatigue.sn.sigma_a" ∷ "mech.fatigue.sn.sut" ∷ "mech.fatigue.sn.se"
        ∷ "mech.fatigue.sn.f" ∷ [])
      ("steel" ∷ "hcf" ∷ []) ("steel" ∷ "hcf" ∷ "kf_pre_applied" ∷ "sn_knee_line" ∷ [])

abbrev pub leadscrew_torque_raise : String → Model
leadscrew_torque_raise claim_kind =
    closed_form_model "mech_leadscrew_torque_raise" claim_kind true
      "mech.drive.leadscrew.torque_raise"
      ("mech.drive.leadscrew.force" ∷ "mech.drive.leadscrew.dm" ∷ "mech.drive.leadscrew.lead"
        ∷ "mech.drive.leadscrew.friction" ∷ [])
      ("square_thread" ∷ "no_collar" ∷ [])
      ("square_thread" ∷ "no_collar" ∷ "no_acme_correction" ∷ [])

abbrev pub thermal_transient_step_temperature : String → Model
thermal_transient_step_temperature claim_kind =
    closed_form_model "thermo_junction_temperature_transient" claim_kind true
      "heat.transient.temperature"
      ("heat.transient.t_amb" ∷ "heat.transient.power" ∷ "heat.transient.r_th"
        ∷ "heat.transient.c_th" ∷ "heat.transient.time" ∷ "heat.transient.biot_number" ∷ [])
      ("lumped_capacitance" ∷ "single_node" ∷ "constant_properties" ∷ [])
      ("lumped_capacitance" ∷ "single_node" ∷ "constant_properties" ∷ [])

abbrev pub thermal_transient_duty_cycle_peak_temperature : String → Model
thermal_transient_duty_cycle_peak_temperature claim_kind =
    closed_form_model "thermo_junction_temperature_duty_cycle" claim_kind true
      "heat.transient.duty_peak_temperature"
      ("heat.transient.t_amb" ∷ "heat.transient.power" ∷ "heat.transient.r_th"
        ∷ "heat.transient.c_th" ∷ "heat.transient.t_on" ∷ "heat.transient.t_off"
        ∷ "heat.transient.biot_number" ∷ [])
      ("lumped_capacitance" ∷ "single_node" ∷ "constant_properties" ∷ "periodic_steady_state" ∷ [])
      ("lumped_capacitance" ∷ "single_node" ∷ "constant_properties" ∷ "periodic_steady_state" ∷ [])

abbrev pub shaft_critical_speed : String → Model
shaft_critical_speed claim_kind =
    closed_form_model "mech_shaft_critical_speed" claim_kind false "mech.critical_speed.rpm"
      ("mech.critical_speed.stiffness" ∷ "mech.critical_speed.mass" ∷ [])
      ("single_mass" ∷ "undamped" ∷ "first_mode" ∷ [])
      ("single_mass" ∷ "undamped" ∷ "first_mode" ∷ "shigley_ch7" ∷ [])

abbrev pub drive_accel_torque : String → Model
drive_accel_torque claim_kind =
    closed_form_model "mech_drive_accel_torque" claim_kind true "mech.drive.accel.torque_required"
      ("mech.drive.accel.j_motor" ∷ "mech.drive.accel.j_load" ∷ "mech.drive.accel.gear_ratio"
        ∷ "mech.drive.accel.efficiency" ∷ "mech.drive.accel.alpha" ∷ "mech.drive.accel.t_load" ∷ [])
      ("rigid_drivetrain" ∷ "single_stage" ∷ "constant_efficiency" ∷ [])
      ("rigid_drivetrain" ∷ "single_stage" ∷ "constant_efficiency" ∷ [])

abbrev pub plate_max_stress : String → Model
plate_max_stress claim_kind =
    closed_form_model "mech_plate_circular_ss_max_stress" claim_kind true
      "mech.plate.circular.ss_max_stress"
      ("mech.plate.circular.q" ∷ "mech.plate.circular.a" ∷ "mech.plate.circular.t"
        ∷ "mech.plate.circular.e" ∷ "mech.plate.circular.nu" ∷ [])
      ("thin_plate" ∷ "small_deflection" ∷ "circular" ∷ [])
      ("thin_plate" ∷ "small_deflection" ∷ "circular" ∷ "roark_11.2_10a" ∷ [])

abbrev pub plate_max_deflection : String → Model
plate_max_deflection claim_kind =
    closed_form_model "mech_plate_circular_ss_max_deflection" claim_kind true
      "mech.plate.circular.ss_max_deflection"
      ("mech.plate.circular.q" ∷ "mech.plate.circular.a" ∷ "mech.plate.circular.t"
        ∷ "mech.plate.circular.e" ∷ "mech.plate.circular.nu" ∷ [])
      ("thin_plate" ∷ "small_deflection" ∷ "circular" ∷ [])
      ("thin_plate" ∷ "small_deflection" ∷ "circular" ∷ "roark_11.2_10a" ∷ [])

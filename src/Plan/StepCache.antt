-- ===== src/Plan/StepCache.antt =====
-- The per-step cache `PayloadStepCache` of python/feldspar/plan/cache.py. The directory is a dict
-- from keys to blobs; a blob that does not parse is `none`. The hash of a key's components is a
-- parameter, and the order of a blob's keys, which `sort_keys` changes, is not modelled.
use feldspar.Prelude.{[], ℕ, suc, String, Option, none, some, Result, err, map}
use feldspar.Prelude.Dict.{Dict, lookup, insert}
use feldspar.Prelude.Dict.Sorted.{sorted}
use feldspar.Core.{Interval, PayloadRef}
use feldspar.Solve.Models.{SolverInfo}
use feldspar.Solve.Errors.{SolveError}

-- `(hull, produced payload refs, realized eps)`
pub record StepEntry (F : Type 0) : Type 0 where
  pub hull : Dict (Interval F)
  pub payloads : Dict PayloadRef
  pub step_eps : F

-- The components that a key is the hash of; the hash takes a dict's keys in order.
pub record StepIdentity (F : Type 0) : Type 0 where
  pub solver_id : String
  pub version : String
  pub settings_digest : String
  pub box : Dict (Interval F)
  pub payloads : Dict String
  pub feldspar_version : String

pub record PayloadStepCache (F : Type 0) : Type 0 where
  pub blobs : Dict (Option (StepEntry F))
  pub hits : ℕ
  pub misses : ℕ

abbrev pub empty_step_cache : {F : Type 0} → PayloadStepCache F
empty_step_cache = record { blobs = []; hits = 0; misses = 0 }

-- `{port: ref.digest for port, ref in payloads.items()}`
unfoldable pub digests_of : Dict PayloadRef → Dict String
digests_of refs = map (λ e. (e.0, e.1.digest)) refs

module _ {F : Type 0} where
  unfoldable pub step_identity :
      String → SolverInfo F → Dict (Interval F) → Dict PayloadRef → StepIdentity F
  unfolding digests_of sorted
  step_identity version info box payload_inputs = record {
    solver_id = info.solver_id;
    version = info.version;
    settings_digest = info.settings_digest;
    box = sorted box;
    payloads = sorted (digests_of payload_inputs);
    feldspar_version = version;
  }

  abbrev missed : PayloadStepCache F → Option (StepEntry F) × PayloadStepCache F
  missed c = (none, record c { misses = suc c.misses })

  -- A hit needs the blob and, for a step with tools, the tools.
  unfoldable pub step_cache_get :
      String
      → Option (Result (Unit {0}) (SolveError F))
      → PayloadStepCache F
      → Option (StepEntry F) × PayloadStepCache F
  unfolding lookup
  step_cache_get key probe_tools c = elim (lookup key c.blobs) [
    | none ↦ missed c
    | some blob ↦ elim probe_tools [
      | some (err _) ↦ missed c
      | _ ↦ elim blob [
        | none ↦ missed c
        | some entry ↦ (some entry, record c { hits = suc c.hits })
      ]
    ]
  ]

  unfoldable pub step_cache_put : String → StepEntry F → PayloadStepCache F → PayloadStepCache F
  unfolding insert
  step_cache_put key entry c = record c { blobs = insert key (some entry) c.blobs }

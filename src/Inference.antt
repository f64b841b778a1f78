-- ===== src/Inference.antt =====
-- src/aries/inference/registry.py: the ways to run a model on the mesh, and the estimates of each.
pub mod Registry
pub mod Tests
use Prim.Native.String.{◌++◌}
use ariesmesh.Prelude.{
  ◌≡◌, refl, ℕ, String, Bool, ◌&&◌, not, Option, none, some, List, [], ◌∷◌, if◌then◌else◌, ◌==◌,
  Number, fmin, fmax, lit, shorten,
}
use ariesmesh.Dict.{lookup}
use ariesmesh.Scheduler.{ScoringWeights}
use ariesmesh.Scheduler.Health.{tenths}
use ariesmesh.Scheduler.Score.{is_zero}

pub record DeviceRole (F : Type 0) : Type 0 where
  pub device_did : String
  pub role : String
  pub memory_allocated_gb : F
  pub has_gpu : Bool
  pub gpu_vram_gb : F
  pub backend : String

pub record ModelInfo (F : Type 0) : Type 0 where
  pub name : String
  pub filename : String
  pub size_gb : F
  pub path : String
  pub device_did : String
  pub layer_count : ℕ
  pub context_window : ℕ

pub record DeviceCapability (F : Type 0) : Type 0 where
  pub device_did : String
  pub ram_total_gb : F
  pub ram_available_gb : F
  pub has_gpu : Bool
  pub gpu_name : String
  pub vram_total_gb : F
  pub vram_available_gb : F
  pub backend : String
  pub disk_read_speed_mbps : F
  pub llama_cpp_available : Bool
  pub llama_cpp_path : Option String
  pub rpc_server_path : Option String
  pub available_models : List (ModelInfo F)
  pub peer_latency_ms : List (String × F)
  pub peer_bandwidth_mbps : List (String × F)

pub record InferenceConfig (F : Type 0) : Type 0 where
  pub config_id : String
  pub model_name : String
  pub model_size_gb : F
  pub config_type : String
  pub devices : List (DeviceRole F)
  pub estimated_tok_s : F
  pub estimated_ttft_s : F
  pub privacy_score : F
  pub capability_score : F
  pub latency_score : F
  pub cost_score : F
  pub health_score : F
  pub trusted_device_did : String
  pub rpc_endpoints : List String
  pub tensor_split : Option (List F)

module _ {F : Type 0} ⦃num : Number F⦄ where
  abbrev uses_gpu : DeviceCapability F → Bool
  uses_gpu cap = cap.has_gpu && num.lt (lit 0) cap.vram_available_gb

  abbrev pub usable_memory : DeviceCapability F → F
  usable_memory cap = if uses_gpu cap then cap.vram_available_gb else cap.ram_available_gb

  unfoldable pub estimate_local_tok_s : DeviceCapability F → ModelInfo F → F
  estimate_local_tok_s cap model =
      let headroom = num.div (usable_memory cap) (fmax model.size_gb (lit 1)) in
      if uses_gpu cap
      then fmin (num.mul (lit 20) headroom) (lit 60)
      else fmin (num.mul (lit 5) headroom) (lit 20)

  unfoldable pub estimate_ttft : DeviceCapability F → ModelInfo F → F
  estimate_ttft cap model =
      let mbps = fmax cap.disk_read_speed_mbps (lit 50) in
      num.div model.size_gb (fmax (num.div mbps (lit 1000)) (tenths 1))

  unfoldable pub model_score : ModelInfo F → F
  model_score model =
      let size_score = fmin (num.div model.size_gb (lit 35)) (lit 1) in
      let ctx_score =
        if model.context_window == 0
        then tenths 3
        else fmin (num.div (lit model.context_window) (lit 128000)) (lit 1) in
      num.add (num.mul (tenths 7) size_score) (num.mul (tenths 3) ctx_score)

  -- `_min_health`, which looks at no capability
  abbrev min_health : F
  min_health = tenths 8

  abbrev pub host_role : DeviceCapability F → F → DeviceRole F
  host_role cap memory = record {
    device_did = cap.device_did;
    role = "host";
    memory_allocated_gb = memory;
    has_gpu = cap.has_gpu;
    gpu_vram_gb = cap.vram_total_gb;
    backend = cap.backend;
  }

  abbrev pub worker_role : DeviceCapability F → F → DeviceRole F
  worker_role cap memory = record (host_role cap memory) { role = "worker" }

  unfoldable pub build_local_config : DeviceCapability F → ModelInfo F → InferenceConfig F
  unfolding shorten estimate_local_tok_s estimate_ttft model_score
  build_local_config host model =
      let tok_s = estimate_local_tok_s host model in
      record {
        config_id = "local-" ++ (model.name ++ ("-" ++ shorten 8 host.device_did));
        model_name = model.name;
        model_size_gb = model.size_gb;
        config_type = "local";
        devices = host_role host model.size_gb ∷ [];
        estimated_tok_s = tok_s;
        estimated_ttft_s = estimate_ttft host model;
        privacy_score = lit 1;
        capability_score = model_score model;
        latency_score = fmin (num.div tok_s (lit 30)) (lit 1);
        cost_score = lit 1;
        health_score = tenths 8;
        trusted_device_did = host.device_did;
        rpc_endpoints = [];
        tensor_split = none;
      }

  -- `d.get(key, default)`
  abbrev get_or : F → Option F → F
  get_or default none = default
  get_or default (some x) = x

  -- `a / b`, where `none` is the ZeroDivisionError; a division whose divisor is a number other than 0, or at least
  -- 1 by a `max`, stays `num.div`.
  abbrev pub divided : F → F → Option F
  divided a b = if is_zero b then none else some (num.div a b)

  -- the seconds that a token takes, the divisor in the variable `tok_s`
  unfoldable pub per_token_s : DeviceCapability F → DeviceCapability F → ModelInfo F → F
  unfolding lookup estimate_local_tok_s
  per_token_s host worker model =
      let latency_ms = get_or (lit 50) (lookup worker.device_did host.peer_latency_ms) in
      let bandwidth = get_or (lit 100) (lookup worker.device_did host.peer_bandwidth_mbps) in
      let overhead =
        num.add (num.mul (num.div latency_ms (lit 1000)) (lit 2))
          (num.div (lit 1) (fmax bandwidth (lit 1))) in
      num.add (num.div (lit 1) (fmax (estimate_local_tok_s host model) (lit 1))) overhead

  -- the variable `tok_s` of a distributed configuration
  unfoldable pub distributed_tok_s :
      DeviceCapability F → DeviceCapability F → ModelInfo F → Option F
  unfolding per_token_s
  distributed_tok_s host worker model = divided (lit 1) (per_token_s host worker model)

  -- the configuration that is built from the split and the speed
  unfoldable pub distributed_config :
      DeviceCapability F → DeviceCapability F → ModelInfo F → F → F → F → InferenceConfig F
  unfolding shorten estimate_ttft model_score
  distributed_config host worker model first second tok_s = record {
    config_id =
        "dist-"
        ++ (model.name
            ++ ("-" ++ (shorten 8 host.device_did ++ ("-" ++ shorten 8 worker.device_did))));
    model_name = model.name;
    model_size_gb = model.size_gb;
    config_type = "distributed";
    devices =
        host_role host (num.mul model.size_gb first)
        ∷ worker_role worker (num.mul model.size_gb second)
        ∷ [];
    estimated_tok_s = tok_s;
    estimated_ttft_s = estimate_ttft host model;
    privacy_score = tenths 9;
    capability_score = model_score model;
    latency_score = fmin (num.div tok_s (lit 30)) (lit 1);
    cost_score = lit 1;
    health_score = fmin (tenths 8) min_health;
    trusted_device_did = host.device_did;
    rpc_endpoints = (worker.device_did ++ ":50052") ∷ [];
    tensor_split = some (first ∷ second ∷ []);
  }

  -- `none` is the ZeroDivisionError
  unfoldable pub build_distributed_config :
      DeviceCapability F → DeviceCapability F → ModelInfo F → F → F → Option (InferenceConfig F)
  unfolding distributed_tok_s distributed_config
  build_distributed_config host worker model host_mem worker_mem =
      let total_mem = num.add host_mem worker_mem in
      elim (divided host_mem total_mem) [
        | none ↦ none
        | some first ↦ elim (divided worker_mem total_mem) [
          | none ↦ none
          | some second ↦ elim (distributed_tok_s host worker model) [
            | none ↦ none
            | some tok_s ↦ some (distributed_config host worker model first second tok_s)
          ]
        ]
      ]

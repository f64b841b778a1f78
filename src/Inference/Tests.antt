-- ===== src/Inference/Tests.antt =====
-- The theorems on the inference registry at concrete inputs, with whole numbers.
use ariesmesh.Prelude.{◌≡◌, ◌≢◌, ◌↔◌, refl, ℕ, true, false, none, some, [], ◌∷◌, In, inl, length}
use ariesmesh.Prelude.Naturals.{whole, whole-IsWeakOrder}
use ariesmesh.Scheduler.{ScoringWeights, TaskConstraints, any_place}
use ariesmesh.Inference.{
  ModelInfo, DeviceCapability, InferenceConfig, host_role, build_local_config,
}
use ariesmesh.Inference.Registry.{
  Registry, computed, zero_division, left_by, compute_configs, update_device, peer_disconnected,
  capability_reported, get_best_config,
}
use ariesmesh.Inference.Registry.Feasible.{compute_configs_iff}
use ariesmesh.Inference.Registry.Raises.{MeetsZero, compute_configs_raises}
use ariesmesh.Inference.Registry.Tried.{Tried}
use ariesmesh.Inference.Registry.Events.{
  Reach, start, next, started, handle, reported, probed, disconnected_gone,
}
use ariesmesh.Inference.Registry.Best.{IsBest, get_best_config-IsBest}
use ariesmesh.Inference.Registry.Stale.{stale_model_listed}

abbrev even_weights : ScoringWeights ℕ
even_weights = record { privacy = 1; capability = 1; latency = 1; cost = 1; health = 1 }

abbrev small_model : ModelInfo ℕ
small_model = record {
  name = "small";
  filename = "small.gguf";
  size_gb = 4;
  path = "/models/small.gguf";
  device_did = "did:a";
  layer_count = 32;
  context_window = 8192;
}

abbrev laptop : DeviceCapability ℕ
laptop = record {
  device_did = "did:a";
  ram_total_gb = 16;
  ram_available_gb = 8;
  has_gpu = false;
  gpu_name = "none";
  vram_total_gb = 0;
  vram_available_gb = 0;
  backend = "cpu";
  disk_read_speed_mbps = 500;
  llama_cpp_available = true;
  llama_cpp_path = none;
  rpc_server_path = none;
  available_models = small_model ∷ [];
  peer_latency_ms = ("did:b", 2000) ∷ [];
  peer_bandwidth_mbps = [];
}

abbrev desktop : DeviceCapability ℕ
desktop = record laptop {
  device_did = "did:b";
  has_gpu = true;
  vram_total_gb = 24;
  vram_available_gb = 20;
  available_models = [];
}

abbrev two_devices : Registry ℕ
two_devices =
    left_by
      (handle (reported "did:b" desktop) (left_by (handle (probed laptop) (started even_weights))))

two_devices-Reach : Reach two_devices
two_devices-Reach = next (next (start even_weights) (probed laptop)) (reported "did:b" desktop)

-- the laptop alone, and with the desktop
two_ways : length two_devices.configs ≡ 2
unfolding capability_reported update_device
two_ways = refl

abbrev alone : InferenceConfig ℕ
alone = build_local_config laptop small_model

alone_listed : In alone two_devices.configs
unfolding capability_reported update_device
alone_listed = inl refl

abbrev one_device : Registry ℕ
one_device = left_by (peer_disconnected "did:b" two_devices)

one_device_computed : peer_disconnected "did:b" two_devices ≡ computed one_device
unfolding capability_reported update_device peer_disconnected
one_device_computed = refl

two_devices_computed : compute_configs two_devices ≡ computed two_devices
unfolding capability_reported update_device
two_devices_computed = refl

alone_left : In alone one_device.configs
unfolding capability_reported update_device peer_disconnected
alone_left = inl refl

laptop_hosts : In (host_role laptop 4) alone.devices
unfolding build_local_config
laptop_hosts = inl refl

model_known : In ("small", small_model ∷ []) two_devices.models
unfolding capability_reported update_device
model_known = inl refl

compute_configs_iff_example :
    In alone two_devices.configs
    ↔ Tried two_devices.models two_devices.device_capabilities (some alone)
compute_configs_iff_example = compute_configs_iff two_devices two_devices alone two_devices_computed

-- Two peers report no memory and a model of the size 0, which the first has.
abbrev no_memory : Registry ℕ
no_memory = record two_devices {
  models = ("small", record small_model { size_gb = 0 } ∷ []) ∷ [];
  device_capabilities =
      ("did:a", record laptop { ram_available_gb = 0 })
      ∷ ("did:b", record laptop { device_did = "did:b"; ram_available_gb = 0 })
      ∷ [];
}

no_memory_raises : compute_configs no_memory ≡ zero_division no_memory
unfolding compute_configs
no_memory_raises = refl

compute_configs_raises_example :
    (compute_configs no_memory ≡ zero_division no_memory)
    ↔ MeetsZero no_memory.models no_memory.device_capabilities
compute_configs_raises_example = compute_configs_raises no_memory

disconnected_gone_example : (host_role laptop 4).device_did ≢ "did:b"
disconnected_gone_example =
    disconnected_gone two_devices one_device "did:b" alone (host_role laptop 4) two_devices-Reach
      refl one_device_computed alone_left laptop_hosts

abbrev without_models : DeviceCapability ℕ
without_models = record laptop { available_models = [] }

abbrev stale : Registry ℕ
stale = left_by (update_device "did:a" without_models two_devices)

stale_computed : update_device "did:a" without_models two_devices ≡ computed stale
unfolding capability_reported update_device
stale_computed = refl

stale_model_listed_example : In (build_local_config without_models small_model) stale.configs
stale_model_listed_example =
    stale_model_listed two_devices stale without_models (small_model ∷ []) small_model model_known
      (inl refl) tt refl stale_computed

abbrev any_task : TaskConstraints
any_task = record {
  capability = "text.qa";
  locality = any_place;
  vendor_preference = [];
  vendor_exclude = [];
  min_context_window = 0;
  max_cost_class = "paid";
  tags = [];
}

get_best_config-IsBest_example :
    IsBest two_devices any_task [] (get_best_config two_devices any_task [])
get_best_config-IsBest_example = get_best_config-IsBest two_devices any_task [] whole-IsWeakOrder

-- ===== src/Config/Devices.antt =====
-- src/py-inference/src/config.py: which GPUs the service uses: `detect_gpus`, `_resolve_multi_gpu`.
use openmodel.Base.{
  range_from, ℕ, suc, ◌==◌, List, [], ◌∷◌, Option, none, some, length, if◌then◌else◌,
}
use openmodel.Base.Text.{Text, codes, same}

-- The count of torch.cuda, none where torch is not installed; the count of nvidia-smi, none where it
-- is not there, times out or fails.
unfoldable pub detect_gpus : Option ℕ → Option ℕ → ℕ
detect_gpus (some (suc n)) smi = suc n
detect_gpus _ (some n) = n
detect_gpus _ none = 0

-- "auto" or a number.
pub data GpuCount : Type 0 where
  auto : GpuCount
  fixed : ℕ → GpuCount

-- The section "multi_gpu"; none: the key is missing.
pub record MultiGpuSection : Type 0 where
  pub mode : Option Text
  pub gpu_count : Option GpuCount
  pub device_ids : Option (List ℕ)
  pub mock_gpu_count : Option ℕ

pub record MultiGpuConfig : Type 0 where
  pub mode : Text
  pub gpu_count : ℕ
  pub device_ids : List ℕ

-- `d.get(key, default)`.
abbrev pub get {ℓ} : {A : Type ℓ} → Option A → A → A
get none a = a
get (some a) b = a

unfoldable pub auto_count : Text → ℕ → ℕ → ℕ
auto_count app_mode detected mock_gpu_count =
    if detected == 0 then (if same app_mode (codes "dev") then mock_gpu_count else 1) else detected

unfoldable pub resolve_count : Text → ℕ → GpuCount → ℕ → ℕ
unfolding auto_count
resolve_count app_mode detected (fixed n) mock_gpu_count = n
resolve_count app_mode detected auto mock_gpu_count = auto_count app_mode detected mock_gpu_count

resolve_devices : Text → ℕ → Option (List ℕ) → MultiGpuConfig
resolve_devices mode count (some ids) = record {
  mode = mode;
  gpu_count = length ids;
  device_ids = ids;
}
resolve_devices mode count none = record {
  mode = mode;
  gpu_count = count;
  device_ids = range_from 0 count;
}

-- `_resolve_multi_gpu`; `detected` is what `detect_gpus` gives, and an absent or empty section is none.
unfoldable pub resolve_multi_gpu : Text → ℕ → Option MultiGpuSection → MultiGpuConfig
unfolding resolve_devices resolve_count
resolve_multi_gpu app_mode detected none = record {
  mode = codes "tensor_parallel";
  gpu_count = 1;
  device_ids = 0 ∷ [];
}
resolve_multi_gpu app_mode detected (some raw) =
    resolve_devices (get raw.mode (codes "tensor_parallel"))
      (resolve_count app_mode detected (get raw.gpu_count auto) (get raw.mock_gpu_count 4))
      raw.device_ids

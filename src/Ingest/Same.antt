-- ===== src/Ingest/Same.antt =====
-- Records of the same device in the cache of internal/cache/device_cache.go.
use device_handler.Prelude.{◌≡◌, refl, ap, ◌∙◌}
use device_handler.Cache.{DeviceRecord}

-- The record with other channel mappings.
pub record SameDevice (r r' : DeviceRecord) : Type 0 where
  pub device_id : r'.device_id ≡ r.device_id
  pub deployment_id : r'.deployment_id ≡ r.deployment_id
  pub gateway_deployment_id : r'.gateway_deployment_id ≡ r.gateway_deployment_id
  pub serial : r'.serial ≡ r.serial
  pub manufacturer : r'.manufacturer ≡ r.manufacturer
  pub model : r'.model ≡ r.model

pub SameDevice-refl : (r : DeviceRecord) → SameDevice r r
SameDevice-refl r = record {
  device_id = refl;
  deployment_id = refl;
  gateway_deployment_id = refl;
  serial = refl;
  manufacturer = refl;
  model = refl;
}

pub SameDevice-trans : {a b c : DeviceRecord} → SameDevice a b → SameDevice b c → SameDevice a c
SameDevice-trans p q = record {
  device_id = q.device_id ∙ p.device_id;
  deployment_id = q.deployment_id ∙ p.deployment_id;
  gateway_deployment_id = q.gateway_deployment_id ∙ p.gateway_deployment_id;
  serial = q.serial ∙ p.serial;
  manufacturer = q.manufacturer ∙ p.manufacturer;
  model = q.model ∙ p.model;
}

pub SameDevice-of_eq :
    (r r' : DeviceRecord)
    → record r' { channel_mappings = r.channel_mappings } ≡ r
    → SameDevice r r'
SameDevice-of_eq r r' e = record {
  device_id = ap (λ (x : DeviceRecord). x.device_id) e;
  deployment_id = ap (λ (x : DeviceRecord). x.deployment_id) e;
  gateway_deployment_id = ap (λ (x : DeviceRecord). x.gateway_deployment_id) e;
  serial = ap (λ (x : DeviceRecord). x.serial) e;
  manufacturer = ap (λ (x : DeviceRecord). x.manufacturer) e;
  model = ap (λ (x : DeviceRecord). x.model) e;
}

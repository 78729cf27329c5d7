-- ===== src/Api/Accepted.antt =====
-- The checks of internal/api/handlers.go of a rotation, and the settings.
use keypool_service.Base.{◌≡◌, refl, true, some, arith}
use keypool_service.Base.Int.{ℤ}
use keypool_service.Store.Settings.{Settings, RotationCfg, lookup_in}
use keypool_service.Selector.Candidates.{rotation_cfg_of, valid_cfg}
use keypool_service.Api.Requests.{rotation_allowed, get_rotation}

-- A rotation configuration that PUT accepts is one that the selector uses: where the settings hold it for
-- a channel, the channel rotates by it, and GET shows it.
pub rotation_allowed-used :
    (st : Settings) (cid : ℤ) (cfg : RotationCfg)
    → rotation_allowed cfg ≡ true
    → lookup_in cid st.rotation ≡ some cfg
    → (rotation_cfg_of (some st) cid ≡ some cfg) × (get_rotation (some st) cid ≡ cfg)
unfolding rotation_allowed rotation_cfg_of valid_cfg get_rotation
rotation_allowed-used st cid cfg h l =
    (rw (l, rotation_cfg_of) (ground (arith, h)), rw (l, get_rotation) refl)

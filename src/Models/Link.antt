-- ===== src/Models/Link.antt =====
-- The identity of mavctl on the link (src/mavctl/models/link.py).
use mavctl.Prelude.{ℕ, Option, none, some, ℤ, pos, negsuc, ◌&&◌, leb, if◌then◌else◌}

-- `DEFAULT_GCS_SOURCE_SYSTEM` and `DEFAULT_GCS_SOURCE_COMPONENT`
abbrev pub default_gcs_source_system : ℕ
default_gcs_source_system = 254

abbrev pub default_gcs_source_component : ℕ
default_gcs_source_component = 190

-- `_MIN_SOURCE_SYSTEM` and `_MAX_SOURCE_SYSTEM`
abbrev pub min_source_system : ℕ
min_source_system = 1

abbrev pub max_source_system : ℕ
max_source_system = 255

-- `validate_source_system` of an integer; `none` is its `ValueError`.
unfoldable pub validate_source_system : ℤ → Option ℕ
validate_source_system (pos n) =
    if leb min_source_system n && leb n max_source_system then some n else none
validate_source_system (negsuc n) = none

-- ===== src/Session/Event/Versions.antt =====
-- The format version after Normalize (session/event.go: Normalize, ValidateType).
use awesome_go_agents.Base.{◌≡◌, refl, ℤ, pos, negsuc, arith}
use awesome_go_agents.Session.Event.{EventType, effective_version, validate_type}

effective_version_again : (v : ℤ) → effective_version (effective_version v) ≡ effective_version v
unfolding effective_version
effective_version_again (pos v) = ground arith
effective_version_again (negsuc n) = refl

-- The current version in place of the version 0 changes no answer.
pub validate_type-effective_version :
    (t : EventType) (v : ℤ) → validate_type t (effective_version v) ≡ validate_type t v
unfolding validate_type
validate_type-effective_version t v = rw (effective_version_again v) refl

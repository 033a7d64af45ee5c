-- ===== src/Session/Errors.antt =====
-- The errors of session/, one constructor for each `fmt.Errorf` or sentinel of the modelled code,
-- and Go's `(T, error)` result.
use awesome_go_agents.Base.{Bool, true, false, ◌≡◌, refl}

pub data Error : Type 0 where
  -- event.go, blocks.go
  unknown_event_type invalid_format_version unsupported_format_version : Error
  invalid_data bad_envelope envelope_route missing_call_id : Error
  payload_not_object invalid_blocks : Error
  -- store.go, fenced.go
  wrong_session lease_held lease_lost : Error
  -- surface.go
  decode_failed no_transaction_id empty_source_seqs repeated_source_seqs : Error
  invalid_start_order invalid_summary_order invalid_surface_order : Error
  invalid_replacement_order invalid_end_order : Error
  summary_mismatch surface_mismatch replacement_mismatch end_mismatch : Error
  generation_regressed unsupported_surface_op : Error

pub data Result {ℓ} (T : Type ℓ) : Type ℓ where
  err : Error → Result T
  ok : T → Result T

-- `if !holds { return e }`
abbrev pub guard : Bool → Error → Result (Unit {0})
guard false e = err e
guard true e = ok tt

infixl 5 ◌>>=◌ ◌>>◌
-- `if e != nil { return e }` after a call, and the rest with its value.
abbrev pub ◌>>=◌ {ℓ κ} : {T : Type ℓ} {U : Type κ} → Result T → (T → Result U) → Result U
err e >>= rest = err e
ok value >>= rest = rest value

abbrev pub ◌>>◌ {κ} : {U : Type κ} → Result (Unit {0}) → Result U → Result U
check >> rest = check >>= λ _. rest

-- A result that is no error was reached through a value.
pub >>=-eq-ok {ℓ κ} :
    {T : Type ℓ} {U : Type κ} (call : Result T) (rest : T → Result U) {out : U}
    → (call >>= rest) ≡ ok out
    → (value : T) × (call ≡ ok value) × (rest value ≡ ok out)
>>=-eq-ok (err e) rest h = cc
>>=-eq-ok (ok value) rest h = (value, refl, h)

pub ok-injective {ℓ} : {T : Type ℓ} (a b : T) → ok a ≡ ok b → a ≡ b
ok-injective a b h = cc

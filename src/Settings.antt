-- ===== src/Settings.antt =====
-- internal/settings/settings.go: how an optional setting of a list resolves against the default of
-- the instance.
use yaadegar.Base.{Option, none, some}
use yaadegar.Base.Int.{ℤ}
use yaadegar.Base.Int64.{mul64}
use yaadegar.Storage.{Duration, minute}

abbrev pub resolve {ℓ} : {T : Type ℓ} → Option T → T → T
resolve none instance_default = instance_default
resolve (some override) instance_default = override

-- The override is a duration only where one is set; `time.Duration(m) * time.Minute` wraps around.
override_minutes : Option ℤ → Option Duration
override_minutes none = none
override_minutes (some m) = some (mul64 m minute)

unfoldable pub resolve_minutes : Option ℤ → Duration → Duration
unfolding override_minutes
resolve_minutes override instance_default = resolve (override_minutes override) instance_default

-- ===== src/Scheduler/Health.antt =====
-- src/aries/scheduler/router.py: the health of a device. A decimal number of the source is the quotient
-- of whole numbers that is nearest to it.
use ariesmesh.Prelude.{
  ℕ, String, Bool, not, ◌&&◌, Option, none, some, if◌then◌else◌, str_eq, Number, lit,
}

-- What `health_score` reads, and the key.
pub record DeviceHealth (F : Type 0) : Type 0 where
  pub device_did : String
  pub cpu_percent : F
  pub battery_pct : Option F
  pub charging : Bool
  pub thermal : String

module _ {F : Type 0} ⦃num : Number F⦄ where
  abbrev pub tenths : ℕ → F
  tenths n = num.div (lit n) (lit 10)

  abbrev cpu_factor : F → F → F
  cpu_factor cpu score =
      if num.lt (lit 80) cpu
      then num.mul score (tenths 5)
      else if num.lt (lit 50) cpu
      then num.mul score (tenths 8)
      else score

  abbrev battery_factor : Bool → Option F → F → F
  battery_factor charging none score = score
  battery_factor charging (some pct) score =
      if num.lt pct (lit 10) && not charging
      then num.mul score (tenths 1)
      else if num.lt pct (lit 30)
      then num.mul score (tenths 5)
      else if num.lt pct (lit 50)
      then num.mul score (tenths 8)
      else score

  abbrev thermal_factor : String → F → F
  thermal_factor thermal score =
      if str_eq thermal "throttled"
      then num.mul score (tenths 3)
      else if str_eq thermal "warm"
      then num.mul score (tenths 7)
      else score

  unfoldable pub health_score : DeviceHealth F → F
  health_score h =
      thermal_factor h.thermal
        (battery_factor h.charging h.battery_pct (cpu_factor h.cpu_percent (lit 1)))

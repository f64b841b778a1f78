-- ===== src/Components/Tests.antt =====
-- The theorems on the components at concrete inputs.
use ariesmesh.Prelude.{◌≡◌, refl, ◌*◌, ◌+◌, ◌/◌, none, some, pad_two, decimal, includes, to_lower}
use ariesmesh.Prelude.Naturals.{whole}
use ariesmesh.Components.Age.{second, format_uptime}
use ariesmesh.Components.Device.Icon.{icon_for_device}

in_minutes : 3723500 / second ≡ 1 * 3600 + 2 * 60 + 3
in_minutes = refl

uptime_printed : format_uptime (some 3723500) ≡ "01:02:03"
unfolding format_uptime pad_two decimal
uptime_printed = refl

named_phone : icon_for_device none (some "My iPhone") ≡ "Smartphone"
unfolding icon_for_device includes to_lower
named_phone = refl

-- ===== src/Components/Device/Icon/Laws.antt =====
-- `iconForDevice` of DeviceCircle.jsx on names and platforms.
use ariesmesh.Prelude.{
  String, ◌≡◌, ◌≢◌, refl, Bool, true, false, Option, none, if◌then◌else◌, to_lower,
}
use ariesmesh.Components.Device.Icon.{icon_for_device, icon_by_platform}

unknown_platform : icon_by_platform (to_lower "") ≡ "Cpu"
unfolding icon_by_platform to_lower
unknown_platform = refl

-- The four tests on the name, in their order.
by_name : (a b c d : Bool) → String → String
by_name a b c d other =
    if a
    then "Tablet"
    else if b
    then "Smartphone"
    else if c
    then "Monitor"
    else if d
    then "Laptop"
    else other

by_name_first :
    (a b c d : Bool) (x y : String)
    → y ≡ "Cpu"
    → by_name a b c d y ≢ "Cpu"
    → by_name a b c d x ≡ by_name a b c d y
unfolding by_name
by_name_first true b c d x y e h = refl
by_name_first false true c d x y e h = refl
by_name_first false false true d x y e h = refl
by_name_first false false false true x y e h = refl
by_name_first false false false false x y e h = absurd (h e)

-- A device whose name gives it an icon without a platform has that icon on every platform.
pub icon_for_device_name_first :
    (platform name : Option String)
    → icon_for_device none name ≢ "Cpu"
    → icon_for_device platform name ≡ icon_for_device none name
unfolding icon_for_device by_name
icon_for_device_name_first platform name h = by_name_first _ _ _ _ _ _ unknown_platform h

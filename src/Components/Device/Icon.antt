-- ===== src/Components/Device/Icon.antt =====
-- `iconForDevice` and `labelForPlatform` of dashboard/src/components/DeviceCircle.jsx.
pub mod Laws
use ariesmesh.Prelude.{String, Bool, ◌||◌, Option, if◌then◌else◌, str_eq, includes, to_lower}
use ariesmesh.Dom.{or_else}

-- The icon is the name of the lucide-react component. The last tests of the function, on the
-- platform, are a function of their own.
unfoldable pub icon_by_platform : String → String
icon_by_platform p =
    if str_eq p "ios" || str_eq p "android"
    then "Smartphone"
    else if str_eq p "ipados"
    then "Tablet"
    else if str_eq p "macos" || str_eq p "linux" || str_eq p "windows"
    then "Laptop"
    else "Cpu"

unfoldable pub icon_for_device : Option String → Option String → String
icon_for_device platform name =
    let lower = to_lower (or_else name "") in
    if includes "tablet" lower || includes "ipad" lower
    then "Tablet"
    else if includes "phone" lower
        || includes "mobile" lower
        || includes "pixel" lower
        || includes "iphone" lower
        || includes "android" lower
    then "Smartphone"
    else if includes "desktop" lower
        || includes "workstation" lower
        || includes "tower" lower
        || includes "pc" lower
    then "Monitor"
    else if includes "laptop" lower || includes "book" lower || includes "mac" lower
    then "Laptop"
    else icon_by_platform (to_lower (or_else platform ""))

unfoldable pub label_for_platform : Option String → String
unfolding to_lower
label_for_platform platform =
    let p = to_lower (or_else platform "") in
    if str_eq p "macos"
    then "macOS"
    else if str_eq p "linux"
    then "Linux"
    else if str_eq p "windows"
    then "Windows"
    else if str_eq p "ios"
    then "iOS"
    else if str_eq p "android"
    then "Android"
    else if str_eq p "ipados"
    then "iPadOS"
    else or_else platform "unknown"

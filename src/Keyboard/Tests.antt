-- ===== src/Keyboard/Tests.antt =====
-- The control codes, with the numbers of the WDK headers.
use win0_doom.Shared.{◌≡◌}
use win0_doom.Fixtures.{wdk}
use win0_doom.Driver.Device.{ioctl_get_keyboard, ioctl_present}
use win0_doom.Client.Keys.{get_keyboard_code, present_code}
use win0_doom.Fixtures.Manager.{wdk-HasCodes}
use win0_doom.Keyboard.{ioctl_codes_agree}

ioctl_codes_agree_example :
    (ioctl_get_keyboard wdk ≡ get_keyboard_code) × (ioctl_present wdk ≡ present_code)
ioctl_codes_agree_example = ioctl_codes_agree wdk wdk-HasCodes

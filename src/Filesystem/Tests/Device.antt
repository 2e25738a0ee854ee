-- ===== src/Filesystem/Tests/Device.antt =====
-- Opening and closing the disk file: after a close, another open does nothing.
use osdesign.Base.{◌≡◌, refl, false, none, some, true, ◌==◌, if◌then◌else◌}
use osdesign.Base.Command.{ok, fault, ◌>>◌}
use osdesign.Filesystem.Device.{Device, disk_open, disk_close}

abbrev unopened : Device
unopened = record { diskfile = none; is_open = λ fd. false }

opens :
    disk_open (some 3) unopened
    ≡ ok tt (record { diskfile = some 3; is_open = λ fd. if fd == 3 then true else false })
unfolding disk_open
opens = refl

ends_the_process : disk_open none unopened ≡ fault
unfolding disk_open
ends_the_process = refl

stays_closed :
    (disk_open (some 3) >> disk_close >> disk_open (some 4)) unopened
    ≡ (disk_open (some 3) >> disk_close) unopened
unfolding disk_open disk_close
stays_closed = refl

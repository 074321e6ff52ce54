-- ===== src/Blocks/Tests.antt =====
-- rumphyper_base.c: a block device blk3 that is opened, once and twice.
use rumpuser_xen.Prelude.{ℕ, ◌+◌, ◌≡◌, refl, true, none, some, [], ◌∷◌, arith, ◌==◌, if◌then◌else◌}
use rumpuser_xen.Blocks.{
  blkfdoff, success, one, rdwr, rdonly, Info, Blocks, devname2num, open_device, close_device,
  getfileinfo,
}
use rumpuser_xen.Blocks.Opening.{blk_name, close_device-open_device, open_device-again}

abbrev no_info : Info
no_info = record { sectors = 0; sector_size = 0; mode = 0 }

abbrev disk : Info
disk = record { sectors = 2048; sector_size = 512; mode = 2 }

abbrev none_open : Blocks
none_open = record { blkdevs = λ i. 0; blkinfos = λ i. no_info; blkopen = λ i. 0; shut = [] }

abbrev one_open : Blocks
one_open = record {
  blkdevs = λ i. if i == 3 then 4096 else 0;
  blkinfos = λ i. disk;
  blkopen = λ i. if i == 3 then 1 else 0;
  shut = [];
}

-- "blkx" is no name of a device.
wrong_name : devname2num (98 ∷ 108 ∷ 107 ∷ 120 ∷ []) ≡ none
unfolding devname2num
wrong_name = refl

close_device-open_device_example :
    (fd : ℕ) × (s1 : Blocks) × (s2 : Blocks) × (open_device 2
        (blk_name 3)
        true
        rdwr
        (4096, disk)
        none_open
      ≡ (success, some fd, s1))
    × (s1.blkdevs 3 ≡ 4096)
    × (s1.blkopen 3 ≡ 1)
    × (close_device fd s1 ≡ (success, s2))
    × (s2.shut ≡ 4096 ∷ none_open.shut)
    × (s2.blkdevs 3 ≡ 0)
    × ((q : ℕ) → s2.blkopen q ≡ none_open.blkopen q)
close_device-open_device_example =
    close_device-open_device 2 3 4096 rdwr disk none_open (omega arith) refl (λ e. omega (arith, e))
      refl

open_device-again_example :
    (s1 : Blocks) × (s2 : Blocks) × (open_device 2 (blk_name 3) true rdonly (0, no_info) one_open
      ≡ (one, none, s1))
    × (getfileinfo (blk_name 3) (0, no_info) one_open ≡ (one, none, s1))
    × (close_device (blkfdoff + 3) s1 ≡ (success, s2))
    × (s2.blkopen 3 ≡ 1)
    × (s2.shut ≡ one_open.shut)
open_device-again_example = open_device-again 2 3 rdonly (0, no_info) one_open (omega arith) refl

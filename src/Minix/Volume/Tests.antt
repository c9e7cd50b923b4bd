-- ===== src/Minix/Volume/Tests.antt =====
-- A file system with one block for each map.
use ata_driver.Common.{◌≡◌, refl, arith, some, ◌==◌, if◌then◌else◌}
use ata_driver.Minix.{Disk, Fs}
use ata_driver.Minix.Volume.{mount, unmount}
use ata_driver.Minix.Volume.Maps.{IsMounted, IsAlike, mount-unmount}

-- The superblock says 32 inodes, 20 zones, one block for each map, and 10 as the first data zone.
abbrev mounted : Fs
mounted = record {
  ps = 512;
  inodes = 32;
  nzones = 20;
  imap_blocks = 1;
  zmap_blocks = 1;
  first_data_zone = 10;
  disk = record {
    size = 65536;
    byte = λ x.
        if x == 1536
        then 32
        else (if x == 1538
            then 20
            else (if x == 1540
                then 1
                else (if x == 1542 then 1 else (if x == 1544 then 10 else 0))));
  };
  inodes_map = λ x. 3;
  zones_map = λ x. 1;
}

mounted-IsMounted : IsMounted mounted
mounted-IsMounted = record {
  inodes = refl;
  nzones = refl;
  imap_blocks = refl;
  zmap_blocks = refl;
  first_data_zone = refl;
  reach = omega arith;
  room = omega arith;
}

mount-unmount_example :
    (disk : Disk) × (unmount mounted ≡ some disk)
    × (fs' : Fs) × (mount mounted.ps disk ≡ some fs')
    × IsAlike mounted fs'
mount-unmount_example = mount-unmount mounted mounted-IsMounted

-- ===== src/Blocks.antt =====
-- rumphyper_base.c: the table of block devices that the rump kernel opens by name. What init_blkfront does for a
-- device, its result and the parameters of the device, is an argument; the values of O_RDWR and
-- of the flags of rumpuser_open are those of headers that lie elsewhere.
pub mod Opening
mod Tests
use rumpuser_xen.Prelude.{
  ℕ, zero, suc, ◌+◌, ◌-◌, ◌*◌, ◌%◌, ◌^◌, Bool, true, false, not, ◌&&◌, ◌||◌, Option, none, some,
  List, [], ◌∷◌, ◌==◌, ◌/=◌, ltb, leb, if◌then◌else◌, update,
}

abbrev pub nblkdev : ℕ
nblkdev = 10

abbrev pub blkfdoff : ℕ
blkfdoff = 64

-- What the functions return: 0, 1, or one of the error numbers.
pub data Status : Type 0 where
  success : Status
  one : Status
  enxio : Status
  eio : Status
  erofs : Status
  ebadf : Status

-- RUMPUSER_OPEN_ACCMODE of a mode.
pub data Access : Type 0 where
  rdonly : Access
  wronly : Access
  rdwr : Access

-- struct blkfront_info, less `info`, `barrier` and `flush`, which nothing here reads.
pub record Info : Type 0 where
  pub sectors : ℕ
  pub sector_size : ℕ
  pub mode : ℕ

-- The counts are bit patterns of int; 0 is NULL. `shut` holds the devices that shutdown_blkfront got, the last
-- one first.
pub record Blocks : Type 0 where
  pub blkdevs : ℕ → ℕ
  pub blkinfos : ℕ → Info
  pub blkopen : ℕ → ℕ
  pub shut : List ℕ

unfoldable pub devopen : ℕ × Info → ℕ → Blocks → Status × Blocks
devopen (dev, info) num s =
    let s' = record s {
      blkdevs = update s.blkdevs num dev;
      blkinfos = update s.blkinfos num info;
    } in
    if s.blkopen num /= 0
    then (one, record s { blkopen = update s.blkopen num ((s.blkopen num + 1) % 2 ^ 32) })
    else if dev /= 0
    then (success, record s' { blkopen = update s'.blkopen num 1 })
    else (eio, s')

-- The name's bytes, without the NUL; none for -1.
unfoldable pub devname2num : List ℕ → Option ℕ
devname2num (b ∷ l ∷ k ∷ d ∷ []) =
    if (b == 98) && (l == 108) && (k == 107) && leb 48 d && ltb (d - 48) nblkdev
    then some (d - 48)
    else none
devname2num name = none

abbrev pub writes : Access → Bool
writes rdonly = false
writes acc = true

-- The descriptor, if there is one.
unfoldable pub opened : ℕ → Access → ℕ → Status × Blocks → Status × Option ℕ × Blocks
opened o_rdwr acc num (success, s) =
    if writes acc && ((s.blkinfos num).mode /= o_rdwr)
    then (erofs, none, s)
    else (success, some (blkfdoff + num), s)
opened o_rdwr acc num (rv, s) = (rv, none, s)

unfoldable pub open_device :
    ℕ → List ℕ → Bool → Access → ℕ × Info → Blocks → Status × Option ℕ × Blocks
open_device o_rdwr name bio acc made s =
    if not bio then (enxio, none, s) else elim (devname2num name) [
      | none ↦ (enxio, none, s)
      | some num ↦ opened o_rdwr acc num (devopen made num s)
    ]

unfoldable pub close_device : ℕ → Blocks → Status × Blocks
close_device fd s =
    let rfd = (fd + 2 ^ 32 - blkfdoff) % 2 ^ 32 in
    let count = (s.blkopen rfd + 2 ^ 32 - 1) % 2 ^ 32 in
    let s' = record s { blkopen = update s.blkopen rfd count } in
    if leb (2 ^ 31) rfd || ltb nblkdev (rfd + 1)
    then (ebadf, s)
    else if count == 0
    then (success, record s' { blkdevs = update s'.blkdevs rfd 0; shut = s'.blkdevs rfd ∷ s'.shut })
    else (success, s')

-- The size, if all went well.
unfoldable pub sized : ℕ → Status × Blocks → Status × Option ℕ × Blocks
sized num (success, s) =
    let size = (s.blkinfos num).sectors * (s.blkinfos num).sector_size % 2 ^ 64 in
    let (closed, s') = close_device (num + blkfdoff) s in (success, some size, s')
sized num (rv, s) = (rv, none, s)

unfoldable pub getfileinfo : List ℕ → ℕ × Info → Blocks → Status × Option ℕ × Blocks
getfileinfo name made s = elim (devname2num name) [
  | none ↦ (enxio, none, s)
  | some num ↦ sized num (devopen made num s)
]
